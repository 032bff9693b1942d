-- ===== src/Audit/Sound.antt =====
-- What the verifier accepts: the writer's own logs, and nothing else short of a hash collision.
use seck.Base.{
  ℕ, suc, ◌+◌, ◌≡◌, inl, inr, refl, sym, ap, ◌∙◌, arith, Option, none, some, List, [], ◌∷◌, ◌++◌,
  map, map-append, length, equal_iff, equal_refl, All, Bytes, Text,
}
use seck.Base.Outcome.{ok, ◌>>=◌, bind-eq-ok, guard-eq-ok, ok-injective, Result-cases}
use seck.Base.Strings.{HasNoBreak, lines, unlines, unlines-append, lines-unlines}
use seck.Audit.{Fields, Record, Primitives, IsDocumented}
use seck.Audit.Chain.{
  Writer, genesis, last, complete, tip_of_line, open_writer, body_of, next_record, append,
  append_all,
}
use seck.Audit.Verify.{VerifyError, ok_or, verify_record, verify_lines, verify_chain}

module _ (p : Primitives) (pk : Bytes) where
  -- The line holds a record that follows `prev` and leads to `next`.
  pub record Follows (prev line next : Text) : Type 0 where
    pub rec : Record
    pub parsed : p.from_json line ≡ some rec
    pub chained : rec.prev_sha3_256 ≡ prev
    pub hashed : p.hex_encode (p.sha3_256 (p.body_bytes (body_of p rec))) ≡ rec.this_sha3_256
    pub tip : rec.this_sha3_256 ≡ next

  ok_or-eq-ok :
      {A : Type 0} (o : Option A) (e : VerifyError) {a : A} → ok_or o e ≡ ok a → o ≡ some a
  ok_or-eq-ok none e h = cc
  ok_or-eq-ok (some a) e h = ap some (ok-injective h)

  pub verify_record-Follows :
      (prev : Text) (i : ℕ) (line next : Text)
      → verify_record p pk prev i line ≡ ok next
      → Follows prev line next
  unfolding verify_record
  verify_record-Follows prev i line next h =
      let (rec, e, h₁) = bind-eq-ok (ok_or (p.from_json line) _) _ h in
      let (c, h₂) = guard-eq-ok _ _ _ h₁ in
      let (d, h₃) = guard-eq-ok _ _ _ h₂ in
      let (sig, s, h₄) = bind-eq-ok (ok_or (p.hex_decode rec.ml_dsa_signature_hex) _) _ h₃ in
      let (v, h₅) = guard-eq-ok _ _ _ h₄ in
      let chained = (equal_iff _ _).0 c in
      record {
        rec = rec;
        parsed = ok_or-eq-ok _ _ e;
        chained = chained;
        hashed = rw chained ((equal_iff _ _).0 d);
        tip = ok-injective h₅;
      }

  verify_lines-append :
      (prev : Text) (i : ℕ) (ls ms : List Text)
      → verify_lines p pk prev i (ls ++ ms)
        ≡ (verify_lines p pk prev i ls >>= λ t. verify_lines p pk t (length ls + i) ms)
  unfolding verify_lines
  verify_lines-append prev i [] ms = ap (λ n. verify_lines p pk prev n ms) (omega arith)
  verify_lines-append prev i (l ∷ ls) ms = elim (Result-cases (verify_record p pk prev i l)) [
    | inr (e, h) ↦ rw h refl
    | inl (next, h) ↦ rw h (
        verify_lines-append next (suc i) ls ms
        ∙ ap (λ n. verify_lines p pk next (suc i) ls >>= λ t. verify_lines p pk t n ms)
            (shift (length ls)))
  ]
    where
      shift : (n : ℕ) → n + suc i ≡ suc n + i
      shift n = omega arith

  tip_of_last :
      (prev : Text) (i : ℕ) (l : Text) (ls : List Text) (t : Text)
      → verify_lines p pk prev i (l ∷ ls) ≡ ok t
      → tip_of_line p (last (l ∷ ls)) ≡ t
  unfolding verify_lines tip_of_line last
  tip_of_last prev i l [] t h =
      let (next, e, h₁) = bind-eq-ok (verify_record p pk prev i l) _ h in
      let f = verify_record-Follows prev i l next e in
      rw (f.parsed, tip_of_line) (f.tip ∙ ok-injective h₁)
  tip_of_last prev i l (m ∷ ls) t h =
      let (next, e, h₁) = bind-eq-ok (verify_record p pk prev i l) _ h in
      tip_of_last next (suc i) m ls t h₁

  -- A writer that opens a log resumes from the tip that the verifier finds in it.
  pub open_writer-verify_chain :
      (content : Text) (sk : Bytes) (t : Text)
      → verify_chain p pk content ≡ ok t
      → (open_writer p (some content) sk).tip ≡ t
  unfolding verify_chain open_writer verify_lines tip_of_line last
  open_writer-verify_chain content sk t h = go (lines content) h
    where
      go : (ls : List Text) → verify_lines p pk genesis 0 ls ≡ ok t → tip_of_line p (last ls) ≡ t
      go [] h = ok-injective h
      go (l ∷ ls) h = tip_of_last genesis 0 l ls t h

  -- The content consists of whole lines, which hold records and verify, with the writer's tip.
  pub record IsSound (w : Writer) : Type 0 where
    pub records : List Record
    pub written : w.content ≡ unlines (map p.to_json records)
    pub verified : verify_chain p pk w.content ≡ ok w.tip

  -- A log that verifies still verifies when it loses lines at its end: nothing marks the last one.
  pub verify_lines_prefix :
      (prev : Text) (i : ℕ) (ls ms : List Text) (t : Text)
      → verify_lines p pk prev i (ls ++ ms) ≡ ok t
      → (u : Text) × (verify_lines p pk prev i ls ≡ ok u)
  verify_lines_prefix prev i ls ms t h =
      let (u, e, _) =
        bind-eq-ok (verify_lines p pk prev i ls) _ (sym (verify_lines-append prev i ls ms) ∙ h) in
      (u, e)

  module _ (sk : Bytes) (d : IsDocumented p pk sk) where
    verify_record-next :
        (w : Writer) (i : ℕ) (time event : Text) (fields : Fields)
        → w.sk ≡ sk
        → verify_record p pk w.tip i (p.to_json (next_record p w time event fields))
          ≡ ok (next_record p w time event fields).this_sha3_256
    unfolding verify_record next_record
    verify_record-next w i time event fields e =
        rw (d.from_json-to_json (next_record p w time event fields), next_record)
          (rw (equal_refl w.tip) (
            rw (equal_refl (next_record p w time event fields).this_sha3_256, next_record)
              (rw (d.hex_decode-hex_encode _) (rw e (rw (d.ml_dsa_verify-ml_dsa_sign _) refl)))))

    lines-written : (rs : List Record) → lines (unlines (map p.to_json rs)) ≡ map p.to_json rs
    lines-written rs = lines-unlines (map p.to_json rs) (whole rs)
      where
        whole : (rs : List Record) → All HasNoBreak (map p.to_json rs)
        whole [] = tt
        whole (r ∷ rs) = (d.to_json-HasNoBreak r, whole rs)

    verify_lines-next :
        (w : Writer) (i : ℕ) (time event : Text) (fields : Fields)
        → w.sk ≡ sk
        → verify_lines p pk w.tip i (p.to_json (next_record p w time event fields) ∷ [])
          ≡ ok (next_record p w time event fields).this_sha3_256
    unfolding verify_lines
    verify_lines-next w i time event fields e = rw (verify_record-next w i time event fields e) refl

    verify_chain-written :
        (rs : List Record)
        → verify_chain p pk (unlines (map p.to_json rs))
          ≡ verify_lines p pk genesis 0 (map p.to_json rs)
    unfolding verify_chain
    verify_chain-written rs = ap (verify_lines p pk genesis 0) (lines-written rs)

    -- A sound log stays sound when an entry is appended to it.
    pub append-IsSound :
        (w : Writer) (time event : Text) (fields : Fields)
        → w.sk ≡ sk
        → IsSound w
        → IsSound (append p complete w time event fields).0
    unfolding append
    append-IsSound w time event fields e s =
        let r = next_record p w time event fields in
        let rs = s.records ++ r ∷ [] in
        let split = map-append p.to_json s.records (r ∷ []) in
        let content =
          ap (λ t. t ++ (p.to_json r ++ b'\n' ∷ [])) s.written
          ∙ sym (unlines-append (map p.to_json s.records) (p.to_json r ∷ []))
          ∙ ap unlines (sym split) in
        let prior =
          sym (verify_chain-written s.records)
          ∙ sym (ap (verify_chain p pk) s.written)
          ∙ s.verified in
        record {
          records = rs;
          written = content;
          verified =
              ap (verify_chain p pk) content
              ∙ verify_chain-written rs
              ∙ ap (verify_lines p pk genesis 0) split
              ∙ verify_lines-append genesis 0 (map p.to_json s.records) (p.to_json r ∷ [])
              ∙ rw prior (verify_lines-next w _ time event fields e);
        }

    append_all-IsSound :
        (es : List (Text × Text × Fields)) (w : Writer)
        → w.sk ≡ sk
        → IsSound w
        → IsSound (append_all p w es)
    unfolding append_all append
    append_all-IsSound [] w e s = s
    append_all-IsSound ((time, event, fields) ∷ es) w e s =
        append_all-IsSound es _ e (append-IsSound w time event fields e s)

    new_log-IsSound : IsSound (open_writer p none sk)
    unfolding open_writer verify_chain verify_lines lines
    new_log-IsSound = record { records = []; written = refl; verified = refl }

    -- Whatever is appended to a new log, entry after entry, the verifier accepts the file and finds
    -- the writer's tip in it, if JSON, hex digits and signatures work as documented.
    pub verify_chain-append_all :
        (es : List (Text × Text × Fields))
        → verify_chain p pk (append_all p (open_writer p none sk) es).content
          ≡ ok (append_all p (open_writer p none sk) es).tip
    unfolding open_writer
    verify_chain-append_all es = (append_all-IsSound es _ refl new_log-IsSound).verified
