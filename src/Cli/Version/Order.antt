-- ===== src/Cli/Version/Order.antt =====
-- internals/cli/version.go: `CompareSemVer` as an order.
use hardline.Base.{
  zero, suc, Text, ◌≡◌, refl, ap, subst, ◌∙◌, sym, Bool, true, false, not, ok, if◌then◌else◌, arith,
  ◌↔◌, Bool-cases, bind-ok, inl, inr,
}
use hardline.Base.{ℤ, pos, negsuc}
use hardline.Cli.Version.{
  SemVer, int_lt, int_eq, compare_part, compare_parsed, compare_sem_ver, parse_sem_ver,
}

abbrev pub negated : ℤ → ℤ
negated (pos zero) = pos 0
negated (pos (suc n)) = negsuc n
negated (negsuc n) = pos (suc n)

-- The first version does not come after the second.
abbrev pub not_after : ℤ → Bool
not_after (pos zero) = true
not_after (pos (suc n)) = false
not_after (negsuc n) = true

int_eq_iff : (a b : ℤ) → (int_eq a b ≡ true) ↔ (a ≡ b)
int_eq_iff (pos a) (pos b) = ground arith
int_eq_iff (pos a) (negsuc b) = ground arith
int_eq_iff (negsuc a) (pos b) = ground arith
int_eq_iff (negsuc a) (negsuc b) = ground arith

int_lt_trans : (a b c : ℤ) → int_lt a b ≡ true → int_lt b c ≡ true → int_lt a c ≡ true
int_lt_trans (pos a) (pos b) (pos c) h k = ground arith
int_lt_trans (pos a) (pos b) (negsuc c) h k = absurd (cc)
int_lt_trans (pos a) (negsuc b) c h k = absurd (cc)
int_lt_trans (negsuc a) (pos b) (pos c) h k = refl
int_lt_trans (negsuc a) (pos b) (negsuc c) h k = absurd (cc)
int_lt_trans (negsuc a) (negsuc b) (pos c) h k = refl
int_lt_trans (negsuc a) (negsuc b) (negsuc c) h k = ground arith

-- Of two different numbers, one is less.
int_lt_flip : (a b : ℤ) → int_eq a b ≡ false → int_lt b a ≡ not (int_lt a b)
int_lt_flip (pos a) (pos b) h = ground arith
int_lt_flip (pos a) (negsuc b) h = refl
int_lt_flip (negsuc a) (pos b) h = refl
int_lt_flip (negsuc a) (negsuc b) h = ground arith

int_eq_sym : (a b : ℤ) → int_eq b a ≡ int_eq a b
int_eq_sym a b = ground (arith, int_eq_iff a b, int_eq_iff b a)

compare_part-negated :
    (a b r r' : ℤ) → r' ≡ negated r → compare_part b a r' ≡ negated (compare_part a b r)
compare_part-negated a b r r' h = elim (Bool-cases (int_eq a b)) [
  | inl e ↦ rw (int_eq_sym a b, e) h
  | inr e ↦
      rw (int_eq_sym a b, e, int_lt_flip a b e)
        (elim (Bool-cases (int_lt a b)) [ inl l ↦ rw l refl | inr l ↦ rw l refl ])
]

compare_parsed-negated : (a b : SemVer) → compare_parsed b a ≡ negated (compare_parsed a b)
unfolding compare_parsed
compare_parsed-negated a b =
    compare_part-negated a.major b.major _ _
      (compare_part-negated a.minor b.minor _ _ (compare_part-negated a.patch b.patch _ _ refl))

compare_part-decides :
    (a b r : ℤ) → not_after (compare_part a b r) ≡ (if int_eq a b then not_after r else int_lt a b)
compare_part-decides a b r = elim (Bool-cases (int_eq a b)) [
  | inl e ↦ rw e refl
  | inr e ↦ rw e (elim (Bool-cases (int_lt a b)) [ inl l ↦ rw l refl | inr l ↦ rw l refl ])
]

int_lt_irrefl : (a : ℤ) → int_lt a a ≡ false
int_lt_irrefl (pos a) = ground arith
int_lt_irrefl (negsuc a) = ground arith

-- Two numbers in order, and two more, are in order over both.
less_through :
    (a b c : ℤ)
    → int_eq a b ≡ false
    → int_eq b c ≡ false
    → int_lt a b ≡ true
    → int_lt b c ≡ true
    → (int_eq a c ≡ false) × (int_lt a c ≡ true)
less_through a b c e f h k =
    let through = int_lt_trans a b c h k in
    (
      elim (Bool-cases (int_eq a c)) [
        | inr n ↦ n
        | inl y ↦ absurd (
            let same : int_lt a a ≡ true = ap (int_lt a) ((int_eq_iff a c).0 y) ∙ through in
            cc (int_lt_irrefl a))
      ],
      through,
    )

replace_rest :
    (b c s t : ℤ)
    → (not_after s ≡ true → not_after t ≡ true)
    → not_after (compare_part b c s) ≡ true
    → (if int_eq b c then not_after t else int_lt b c) ≡ true
replace_rest b c s t next k = elim (Bool-cases (int_eq b c)) [
  | inl f ↦ rw f (next (rw (compare_part-decides b c s, f) at k))
  | inr f ↦ rw f (rw (compare_part-decides b c s, f) at k)
]

compare_part-not_after :
    (a b c r s t : ℤ)
    → (not_after r ≡ true → not_after s ≡ true → not_after t ≡ true)
    → not_after (compare_part a b r) ≡ true
    → not_after (compare_part b c s) ≡ true
    → not_after (compare_part a c t) ≡ true
compare_part-not_after a b c r s t next h k =
    rw (compare_part-decides a c t) (elim (Bool-cases (int_eq a b)) [
      | inl e ↦
          subst (λ x. (if int_eq x c then not_after t else int_lt x c) ≡ true)
            (sym ((int_eq_iff a b).0 e))
            (replace_rest b c s t (next (rw (compare_part-decides a b r, e) at h)) k)
      | inr e ↦ elim (Bool-cases (int_eq b c)) [
        | inl f ↦
            subst (λ x. (if int_eq a x then not_after t else int_lt a x) ≡ true)
              ((int_eq_iff b c).0 f) (rw e (rw (compare_part-decides a b r, e) at h))
        | inr f ↦
            let (e', l) =
              less_through a b c e f (rw (compare_part-decides a b r, e) at h)
                (rw (compare_part-decides b c s, f) at k) in
            rw (e', l) refl
      ]
    ])

compare_parsed-not_after :
    (a b c : SemVer)
    → not_after (compare_parsed a b) ≡ true
    → not_after (compare_parsed b c) ≡ true
    → not_after (compare_parsed a c) ≡ true
unfolding compare_parsed
compare_parsed-not_after a b c = compare_part-not_after a.major b.major c.major _ _ _ (
    compare_part-not_after a.minor b.minor c.minor _ _ _
      (compare_part-not_after a.patch b.patch c.patch _ _ _ (λ h k. refl)))

-- Comparing two versions the other way round gives the opposite answer, and fails only if the first
-- comparison does.
pub compare_sem_ver-negated :
    (a b : Text) (n : ℤ) → compare_sem_ver a b ≡ ok n → compare_sem_ver b a ≡ ok (negated n)
unfolding compare_sem_ver
compare_sem_ver-negated a b n h =
    let (va, pa, h1) = bind-ok (parse_sem_ver a) _ n h in
    let (vb, pb, h2) = bind-ok (parse_sem_ver b) _ n h1 in
    let same : compare_parsed va vb ≡ n = cc in
    rw (pb, pa) (ap (λ (x : ℤ). ok x) (compare_parsed-negated va vb ∙ ap negated same))

-- If one version does not come after a second, nor that after a third, then the first does not come
-- after the third.
pub compare_sem_ver-transitive :
    (a b c : Text) (m n : ℤ)
    → compare_sem_ver a b ≡ ok m
    → compare_sem_ver b c ≡ ok n
    → not_after m ≡ true
    → not_after n ≡ true
    → (k : ℤ) × (compare_sem_ver a c ≡ ok k) × (not_after k ≡ true)
unfolding compare_sem_ver
compare_sem_ver-transitive a b c m n h k x y =
    let (va, pa, h1) = bind-ok (parse_sem_ver a) _ m h in
    let (vb, pb, h2) = bind-ok (parse_sem_ver b) _ m h1 in
    let (vb', pb', k1) = bind-ok (parse_sem_ver b) _ n k in
    let (vc, pc, k2) = bind-ok (parse_sem_ver c) _ n k1 in
    let same : compare_parsed va vb ≡ m = cc in
    let same' : compare_parsed vb vc ≡ n = cc in
    (
      compare_parsed va vc,
      rw (pa, pc) refl,
      compare_parsed-not_after va vb vc (ap not_after same ∙ x) (ap not_after same' ∙ y),
    )

compare_part-zero : (a b r : ℤ) → (compare_part a b r ≡ pos 0) ↔ ((a ≡ b) × (r ≡ pos 0))
compare_part-zero a b r = elim (Bool-cases (int_eq a b)) [
  | inl e ↦ rw e ((λ h. ((int_eq_iff a b).0 e, h)), (λ h. h.1))
  | inr e ↦
      ((λ h. absurd (different a b r e h)), (λ h. absurd (let same = (int_eq_iff a b).1 h.0 in cc)))
]
  where
    different : (a b r : ℤ) → int_eq a b ≡ false → compare_part a b r ≡ pos 0 → ⊥
    different a b r e h = elim (Bool-cases (int_lt a b)) [
      | inl l ↦ cc (rw (e, l) at h)
      | inr l ↦ cc (rw (e, l) at h)
    ]

-- Two versions that parse compare as equal exactly if their three numbers are equal: a pre-release
-- suffix does not count.
pub compare_sem_ver-zero :
    (a b : Text) (va vb : SemVer)
    → parse_sem_ver a ≡ ok va
    → parse_sem_ver b ≡ ok vb
    → (compare_sem_ver a b ≡ ok (pos 0))
      ↔ ((va.major ≡ vb.major) × (va.minor ≡ vb.minor) × (va.patch ≡ vb.patch))
unfolding compare_sem_ver compare_parsed
compare_sem_ver-zero a b va vb pa pb =
    let last = compare_part-zero va.patch vb.patch (pos 0) in
    let middle = compare_part-zero va.minor vb.minor (compare_part va.patch vb.patch (pos 0)) in
    let whole =
      compare_part-zero va.major vb.major
        (compare_part va.minor vb.minor (compare_part va.patch vb.patch (pos 0))) in
    let compared : compare_sem_ver a b ≡ ok (compare_parsed va vb) = rw (pa, pb) refl in
    (
      (λ h.
          let zero_result : compare_parsed va vb ≡ pos 0 = cc (compared, h) in
          let (x, h1) = whole.0 zero_result in let (y, h2) = middle.0 h1 in (x, y, (last.0 h2).0)),
      (λ h. compared ∙ ap (λ (n : ℤ). ok n) (whole.1 (h.0, middle.1 (h.1, last.1 (h.2, refl))))),
    )
