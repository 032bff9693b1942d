-- ===== src/Reader/Delivery.antt =====
-- What the one reader process sends, the other one reads.
use seck.Base.{
  ◌≡◌, refl, sym, ap, ◌∙◌, List, [], ◌∷◌, ◌++◌, map, append-nil, append_assoc, All, Bytes, Text,
}
use seck.Base.Outcome.{ok}
use seck.Base.Strings.{HasNoBreak, lines, unlines, lines-unlines_append, trim_end}
use seck.Wire.{Frame}
use seck.Reader.Prompt.{Encoders}
use seck.Reader.Ipc.{
  Message, header, file, end_files, Json, IsDocumented, write_message, push, read_lines,
  read_messages, ipc_system, ipc_task, file_message, emit_files, emit_ipc,
}

-- Not the last message.
abbrev pub IsOpen : Message → Type 0
IsOpen (header nonce system task) = Unit
IsOpen (file path content n) = Unit
IsOpen end_files = ⊥

module _ (j : Json) (d : IsDocumented j) where
  read_lines-here :
      (m : Message) (ls : List Text) → read_lines j (j.to_json m ∷ ls) ≡ push j m (read_lines j ls)
  unfolding read_lines
  read_lines-here m ls = go (j.to_json m) refl (d.trim_end-to_json m)
    where
      go :
          (l : Text)
          → j.to_json m ≡ l
          → trim_end (j.to_json m) ≡ j.to_json m
          → read_lines j (j.to_json m ∷ ls) ≡ push j m (read_lines j ls)
      go [] e t = absurd (d.some_text m e)
      go (c ∷ s) e t =
          rw (t ∙ e, read_lines) (rw (ap j.from_json (sym e) ∙ d.from_json-to_json m) refl)

  read_lines-sent :
      (ms : List Message) (ls : List Text)
      → All IsOpen ms
      → read_lines j (map j.to_json ms ++ (j.to_json end_files ∷ ls)) ≡ ok (ms ++ end_files ∷ [])
  unfolding push
  read_lines-sent [] ls o = read_lines-here end_files ls
  read_lines-sent (header nonce system task ∷ ms) ls o =
      read_lines-here (header nonce system task) _ ∙ rw (read_lines-sent ms ls o.1) refl
  read_lines-sent (file path content n ∷ ms) ls o =
      read_lines-here (file path content n) _ ∙ rw (read_lines-sent ms ls o.1) refl
  read_lines-sent (end_files ∷ ms) ls o = absurd o.0

  HasNoBreak-all : (ms : List Message) → All HasNoBreak (map j.to_json ms)
  HasNoBreak-all [] = tt
  HasNoBreak-all (m ∷ ms) = (d.to_json-HasNoBreak m, HasNoBreak-all ms)

  -- The messages on the wire, the last one behind them.
  abbrev pub sent : List Message → Text
  sent ms = unlines (map j.to_json ms) ++ (j.to_json end_files ++ b'\n' ∷ [])

  -- Messages that are written one after the other and closed by `EndFiles` are read back as they
  -- were, whatever stands behind them, if JSON works as documented.
  pub read_messages-sent :
      (ms : List Message) (garbage : Text)
      → All IsOpen ms
      → read_messages j (sent ms ++ garbage) ≡ ok (ms ++ end_files ∷ [])
  unfolding read_messages
  read_messages-sent ms garbage o =
      ap (λ t. read_lines j (lines t))
        (append_assoc (unlines (map j.to_json ms)) (j.to_json end_files ++ b'\n' ∷ []) garbage)
      ∙ ap (read_lines j) (
          lines-unlines_append (map j.to_json ms) _ (HasNoBreak-all ms)
          ∙ ap (λ ls. map j.to_json ms ++ ls)
              (lines-unlines_append (j.to_json end_files ∷ []) garbage
                (d.to_json-HasNoBreak end_files, tt)))
      ∙ read_lines-sent ms (lines garbage) o

  emit_files-unlines :
      (e : Encoders) (fs : List Frame) (w : Text)
      → emit_files j e w fs ≡ w ++ unlines (map j.to_json (map (file_message j e) fs))
  unfolding emit_files write_message
  emit_files-unlines e [] w = sym (append-nil w)
  emit_files-unlines e (f ∷ fs) w =
      let line = j.to_json (file_message j e f) in
      let rest = unlines (map j.to_json (map (file_message j e) fs)) in
      emit_files-unlines e fs (w ++ (line ++ b'\n' ∷ []))
      ∙ append_assoc w (line ++ b'\n' ∷ []) rest
      ∙ ap (λ t. w ++ t) (append_assoc line (b'\n' ∷ []) rest)

  IsOpen-files : (e : Encoders) (fs : List Frame) → All IsOpen (map (file_message j e) fs)
  IsOpen-files e [] = tt
  IsOpen-files e (f ∷ fs) = (tt, IsOpen-files e fs)

  abbrev pub messages : Encoders → Bytes → List Frame → List Message
  messages e nonce frames =
      header (e.hex_encode nonce) (ipc_system j) (ipc_task j) ∷ map (file_message j e) frames

  -- What `emit_ipc` sends is read as one header, one message per file in order, and the end, if
  -- JSON works as documented.
  pub read_messages-emit_ipc :
      (e : Encoders) (nonce : Bytes) (frames : List Frame)
      → read_messages j (emit_ipc j e nonce frames) ≡ ok (messages e nonce frames ++ end_files ∷ [])
  unfolding emit_ipc write_message
  read_messages-emit_ipc e nonce frames =
      let first = j.to_json (header (e.hex_encode nonce) (ipc_system j) (ipc_task j)) in
      let rest = unlines (map j.to_json (map (file_message j e) frames)) in
      let on_wire =
        ap (λ t. t ++ (j.to_json end_files ++ b'\n' ∷ []))
          (emit_files-unlines e frames (first ++ b'\n' ∷ [])
            ∙ append_assoc first (b'\n' ∷ []) rest) in
      ap (read_messages j) (on_wire ∙ sym (append-nil _))
      ∙ read_messages-sent (messages e nonce frames) [] (tt, IsOpen-files e frames)
