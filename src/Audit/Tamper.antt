-- ===== src/Audit/Tamper.antt =====
-- What a changed log takes: two logs of one length that verify with one tip say the same.
use seck.Base.{
  ℕ, suc, ◌≡◌, ◌≢◌, ◌⊎◌, inl, inr, refl, sym, ap, ◌∙◌, Option, none, some, List, [], ◌∷◌, map,
  length, equal, equal_iff, equal_refl, Bool-cases, Bytes, Text, arith,
}
use seck.Base.Outcome.{ok, ok-injective, bind-eq-ok}
use seck.Audit.{Body, Record, Primitives}
use seck.Audit.Chain.{body_of}
use seck.Audit.Verify.{verify_record, verify_lines}
use seck.Audit.Sound.{Follows, verify_record-Follows}

module _ (p : Primitives) where
  -- What a line of the log says.
  pub says : Text → Option Body
  says line = elim (p.from_json line) [ none ↦ none | some r ↦ some (body_of p r) ]

  -- Two lines whose records have bodies that differ, with one digest.
  pub record Clash (l m : Text) : Type 0 where
    pub first : Record
    pub second : Record
    pub first_parsed : p.from_json l ≡ some first
    pub second_parsed : p.from_json m ≡ some second
    pub differ : p.body_bytes (body_of p first) ≢ p.body_bytes (body_of p second)
    pub same_digest :
        p.hex_encode (p.sha3_256 (p.body_bytes (body_of p first)))
        ≡ p.hex_encode (p.sha3_256 (p.body_bytes (body_of p second)))

  -- Two lines at the same place of two logs clash.
  pub data Collide : List Text → List Text → Type 0 where
    here : {l m : Text} {ls ms : List Text} → Clash l m → Collide (l ∷ ls) (m ∷ ms)
    there : {l m : Text} {ls ms : List Text} → Collide ls ms → Collide (l ∷ ls) (m ∷ ms)

  same_or_differ : (a b : Bytes) → (a ≡ b) ⊎ (a ≢ b)
  same_or_differ a b = elim (Bool-cases (equal a b)) [
    | inl e ↦ inl ((equal_iff a b).0 e)
    | inr e ↦ inr (λ q. cc (e, ap (equal a) q, equal_refl a))
  ]

  module _ (pk : Bytes) (pk' : Bytes)
      (faithful : (a b : Body) → p.body_bytes a ≡ p.body_bytes b → a ≡ b) where
    Follows-same :
        (prev prev' l m t : Text)
        → Follows p pk prev l t
        → Follows p pk' prev' m t
        → ((prev ≡ prev') × (says l ≡ says m)) ⊎ Clash l m
    unfolding says
    Follows-same prev prev' l m t f g =
        let digests = f.hashed ∙ f.tip ∙ sym (g.hashed ∙ g.tip) in
        elim (same_or_differ (p.body_bytes (body_of p f.rec)) (p.body_bytes (body_of p g.rec))) [
          | inr n ↦ inr (record {
            first = f.rec;
            second = g.rec;
            first_parsed = f.parsed;
            second_parsed = g.parsed;
            differ = n;
            same_digest = digests;
          })
          | inl e ↦
              let same = faithful (body_of p f.rec) (body_of p g.rec) e in
              inl (
                sym f.chained ∙ ap (λ b. b.prev_sha3_256) same ∙ g.chained,
                rw (f.parsed, g.parsed, says) (ap some same),
              )
        ]

    -- Two logs of the same length, each verified under a key of its own, that end in one tip, hold
    -- the same entries in the same order, or at one place of both logs stand two records whose bodies
    -- differ and have the same digest. The JSON form of a body must determine the body.
    pub same_tip_same_log :
        (ls ms : List Text) (prev prev' : Text) (i j : ℕ) (t : Text)
        → length ls ≡ length ms
        → verify_lines p pk prev i ls ≡ ok t
        → verify_lines p pk' prev' j ms ≡ ok t
        → ((prev ≡ prev') × (map says ls ≡ map says ms)) ⊎ Collide ls ms
    unfolding verify_lines
    same_tip_same_log [] [] prev prev' i j t n h k = inl (ok-injective (h ∙ sym k), refl)
    same_tip_same_log [] (m ∷ ms) prev prev' i j t n h k = absurd (omega (arith, n))
    same_tip_same_log (l ∷ ls) [] prev prev' i j t n h k = absurd (omega (arith, n))
    same_tip_same_log (l ∷ ls) (m ∷ ms) prev prev' i j t n h k =
        let (a, e, h') = bind-eq-ok (verify_record p pk prev i l) _ h in
        let (b, f, k') = bind-eq-ok (verify_record p pk' prev' j m) _ k in
        elim (same_tip_same_log ls ms a b (suc i) (suc j) t (omega (arith, n)) h' k') [
          | inr c ↦ inr (there c)
          | inl (tips, tails) ↦
              elim (Follows-same prev prev' l m b
                (verify_record-Follows p pk prev i l b (e ∙ ap ok tips))
                (verify_record-Follows p pk' prev' j m b f)) [
                  | inr c ↦ inr (here c)
                  | inl (prevs, heads) ↦ inl (prevs, cc (heads, tails))
                ]
        ]
