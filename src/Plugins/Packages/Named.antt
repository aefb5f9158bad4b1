-- ===== src/Plugins/Packages/Named.antt =====
-- internals/plugins/packages/rpm.go: what it means that a package of a preview was declared, said apart
-- from the sets of names of `UnexpectedRemovals`.
use hardline.Base.{
  ℕ, suc, ◌-◌, ◌≤◌, Text, codes, ◌==◌, ==_iff, ◌≡◌, refl, sym, subst, ap, ◌∙◌, true, some, List, [],
  ◌∷◌, ◌++◌, is_nil, length, All, Bool-cases, Option-cases, inl, inr, ◌⊎◌, arith, trim_space,
  has_suffix,
}
use hardline.Plugins.Packages.Ops.{take}
use hardline.Plugins.Packages.Names.{
  member, cut_suffix, trim_arches, trim_rpm_arch, rpm_arches, bare_name, declared_name_set,
  unexpected_removals,
}

-- Some element has it.
abbrev pub Some {ℓ} : {A : Type ℓ} → (A → Type 0) → List A → Type 0
Some P [] = ⊥
Some P (x ∷ l) = P x ⊎ Some P l

abbrev pub architectures : List Text
architectures =
    codes "x86_64"
    ∷ (codes "noarch"
        ∷ (codes "aarch64"
            ∷ (codes "i686"
                ∷ (codes "i386"
                    ∷ (codes "armv7hl"
                        ∷ (codes "ppc64le" ∷ (codes "s390x" ∷ (codes "src" ∷ []))))))))

-- The entry, without the spaces around it, is the package, with an architecture behind it or not.
abbrev pub StandsFor : Text → Text → Type 0
StandsFor p entry =
    (trim_space entry ≡ p) ⊎ Some (λ arch. trim_space entry ≡ p ++ (b'.' ∷ arch)) architectures

-- Every package of the preview is declared by some entry.
abbrev pub AllDeclared : List Text → List Text → Type 0
AllDeclared entries preview = All (λ p. Some (StandsFor p) entries) preview

length-has_suffix : (s suffix : Text) → has_suffix s suffix ≡ true → length suffix ≤ length s
unfolding has_suffix
length-has_suffix [] [] h = omega arith
length-has_suffix [] (d ∷ suffix) h = absurd (cc)
length-has_suffix (c ∷ s) suffix h = elim (Bool-cases ((c ∷ s) == suffix)) [
  | inl e ↦ rw (sym ((==_iff (c ∷ s) suffix).0 e)) (omega arith)
  | inr e ↦
      let shorter = length-has_suffix s suffix (ground (arith, e, h)) in omega (arith, shorter)
]

take_zero : (n : ℕ) (s : Text) → n ≡ 0 → take n s ≡ []
take_zero n s e = rw e refl

take-suc : (n m : ℕ) (c : ℕ) (s : Text) → n ≡ suc m → take n (c ∷ s) ≡ c ∷ take m s
take-suc n m c s e = rw e refl

take-has_suffix :
    (s suffix : Text) → has_suffix s suffix ≡ true → take (length s - length suffix) s ++ suffix ≡ s
unfolding has_suffix
take-has_suffix [] [] h = refl
take-has_suffix [] (d ∷ suffix) h = absurd (cc)
take-has_suffix (c ∷ s) suffix h = elim (Bool-cases ((c ∷ s) == suffix)) [
  | inl e ↦
      let same : c ∷ s ≡ suffix = (==_iff (c ∷ s) suffix).0 e in
      let long : length (c ∷ s) ≡ length suffix = ap (λ (t : Text). length t) same in
      rw (take_zero (length (c ∷ s) - length suffix) (c ∷ s) (omega (arith, long))) (sym same)
  | inr e ↦
      let ends : has_suffix s suffix ≡ true = ground (arith, e, h) in
      let shorter = length-has_suffix s suffix ends in
      rw
        (take-suc (length (c ∷ s) - length suffix) (length s - length suffix) c s
          (omega (arith, shorter)))
        (ap (λ (t : Text). c ∷ t) (take-has_suffix s suffix ends))
]

cut_suffix-append : (s suffix name : Text) → cut_suffix s suffix ≡ some name → s ≡ name ++ suffix
cut_suffix-append s suffix name h = elim (Bool-cases (has_suffix s suffix)) [
  | inl e ↦
      let cut : take (length s - length suffix) s ≡ name = ground (arith, e, h) in
      rw (← cut) (sym (take-has_suffix s suffix e))
  | inr e ↦ absurd (ground (arith, e, h))
]

trim_arches-append :
    (token : Text) (l : List Text) (name : Text)
    → trim_arches token l ≡ some name
    → Some (λ arch. token ≡ name ++ (b'.' ∷ arch)) l
trim_arches-append token [] name h = absurd (cc)
trim_arches-append token (arch ∷ l) name h = elim (Option-cases (cut_suffix token (b'.' ∷ arch))) [
  | inl e ↦ inr (trim_arches-append token l name (rw (e, trim_arches) at h))
  | inr (x, e) ↦ inl (cut_suffix-append token (b'.' ∷ arch) name (e ∙ (rw (e, trim_arches) at h)))
]

bare_name-StandsFor : (entry : Text) → StandsFor (bare_name (trim_space entry)) entry
unfolding trim_rpm_arch rpm_arches
bare_name-StandsFor entry = elim (Option-cases (trim_arches (trim_space entry) architectures)) [
  | inl e ↦ rw (e, bare_name) (inl refl)
  | inr (x, e) ↦ rw (e, bare_name) (inr (trim_arches-append (trim_space entry) architectures x e))
]

declared_name_set-Some :
    (p : Text) (entries : List Text)
    → member p (declared_name_set entries) ≡ true
    → Some (StandsFor p) entries
unfolding member declared_name_set
declared_name_set-Some p [] h = absurd (cc)
declared_name_set-Some p (entry ∷ entries) h = elim (Bool-cases (is_nil (trim_space entry))) [
  | inl e ↦ inr (declared_name_set-Some p entries (rw e at h))
  | inr e ↦ elim (Bool-cases (bare_name (trim_space entry) == p)) [
    | inl f ↦ inl (
        subst (λ n. StandsFor n entry) ((==_iff (bare_name (trim_space entry)) p).0 f)
          (bare_name-StandsFor entry))
    | inr f ↦ inr (declared_name_set-Some p entries (rw f at (rw e at h)))
  ]
]

-- A guard that finds nothing unexpected in a preview has found every package of it declared.
pub unexpected_removals-AllDeclared :
    (entries preview : List Text)
    → is_nil (unexpected_removals entries preview) ≡ true
    → AllDeclared entries preview
unfolding unexpected_removals
unexpected_removals-AllDeclared entries [] h = tt
unexpected_removals-AllDeclared entries (p ∷ preview) h =
    elim (Bool-cases (member p (declared_name_set entries))) [
      | inl e ↦ (
        declared_name_set-Some p entries e,
        unexpected_removals-AllDeclared entries preview (rw e at h),
      )
      | inr e ↦ absurd (cc (rw e at h))
    ]
