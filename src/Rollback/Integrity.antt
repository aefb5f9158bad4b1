-- ===== src/Rollback/Integrity.antt =====
-- What a decoded journal is known to be, and that a saved journal decodes to itself.
use hardline.Base.{
  Text, ==_iff, ==_refl, ◌≡◌, ◌≢◌, ap, ◌∙◌, some, [], ◌∷◌, ◌++◌, ok, arith, Option-cases, inl, inr,
}
use hardline.Rollback.Journal.{Journal}
use hardline.Rollback.Persist.{
  Codec, sealed, marshal_journal, check_journal, decode_journal, journal_version,
}

module _ (codec : Codec) where
  check_journal-checked :
      (j' j : Journal)
      → check_journal codec j' ≡ ok j
      → (j' ≡ j)
        × (j'.version ≡ journal_version)
        × (j'.checksum ≢ [])
        × (codec.digest (codec.encode (record j' { checksum = [] })) ≡ j'.checksum)
  unfolding check_journal
  check_journal-checked j' j h =
      let d = ==_iff (codec.digest (codec.encode (record j' { checksum = [] }))) j'.checksum in
      (ground (arith, d), ground (arith, d), ground (arith, d), ground (arith, d))

  check_journal-sealed :
      (j : Journal)
      → codec.digest (codec.encode (record j { checksum = [] })) ≢ []
      → j.version ≡ journal_version
      → check_journal codec (sealed codec j) ≡ ok (sealed codec j)
  unfolding check_journal sealed
  check_journal-sealed j digests v =
      ground (arith, ==_refl (codec.digest (codec.encode (record j { checksum = [] }))))

  -- A text that decodes has the supported version, a checksum, and the one that its other fields give.
  pub decode_journal-checked :
      (bytes : Text) (j : Journal)
      → decode_journal codec bytes ≡ ok j
      → (codec.parse bytes ≡ some j)
        × (j.version ≡ journal_version)
        × (j.checksum ≢ [])
        × (sealed codec j ≡ j)
  unfolding decode_journal sealed
  decode_journal-checked bytes j h = elim (Option-cases (codec.parse bytes)) [
    | inl e ↦ absurd (cc (rw (e, decode_journal) at h))
    | inr (j', e) ↦
        let (same, v, c, d) = check_journal-checked j' j (rw (e, decode_journal) at h) in
        (
          e ∙ ap some same,
          rw (← same) v,
          rw (← same) c,
          rw (← same) (ap (λ (t : Text). record j' { checksum = t }) d),
        )
  ]

  -- A journal of the current version decodes to itself with its checksum filled in, if the parser
  -- reads back what the encoder writes for it and its digest is not empty.
  pub marshal-decode :
      (j : Journal)
      → codec.parse (codec.encode (sealed codec j) ++ (10 ∷ [])) ≡ some (sealed codec j)
      → codec.digest (codec.encode (record j { checksum = [] })) ≢ []
      → j.version ≡ journal_version
      → decode_journal codec (marshal_journal codec j) ≡ ok (sealed codec j)
  unfolding decode_journal marshal_journal
  marshal-decode j parses digests v = rw (parses, decode_journal) (check_journal-sealed j digests v)
