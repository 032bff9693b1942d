-- ===== src/Host/Delivery.antt =====
-- From the file tree to the reader: the walk, the reading of the files, the stream and its parse.
use seck.Base.{
  ℕ, suc, ◌≤◌, ◌≡◌, refl, sym, ap, ◌∙◌, arith, Option, List, [], ◌∷◌, append-nil, length,
  length-take, take, map, Bytes, All,
}
use seck.Base.Outcome.{ok}
use seck.Base.Utf8.{to_string_lossy}
use seck.Wire.{FileEntry, Frame, max_path_len, max_entry_bytes}
use seck.Wire.Writer.{encode}
use seck.Wire.Reader.{read_frames}
use seck.Wire.RoundTrip.{Fits, frame_of, read_frames-encode}
use seck.Host.Walker.{Node, Entry, default_limits, walk}
use seck.Host.Walker.Limits.{walk-Respects}
use seck.Host.Fileset.{Answers, content, build_fileset, AllRead, IsRead, build_fileset-AllRead}

module _ (answers : ℕ → Answers) where
  -- The path fits the stream, and the file has not shrunk since the walk.
  pub record IsSteady (e : Entry) : Type 0 where
    pub path_fits : length (to_string_lossy e.relative) ≤ max_path_len
    pub not_shrunk : e.size ≤ length (content (answers e.fd))

  -- What the reader is to receive for a walked file.
  abbrev pub received : Entry → Frame
  received e = record {
    relative_path = to_string_lossy e.relative;
    bytes = take e.size (content (answers e.fd));
  }

  AllRead-length :
      (walked : List Entry) (fs : List FileEntry)
      → AllRead answers walked fs
      → length fs ≡ length walked
  unfolding AllRead
  AllRead-length [] [] r = refl
  AllRead-length [] (f ∷ fs) r = absurd r
  AllRead-length (e ∷ walked) [] r = absurd r
  AllRead-length (e ∷ walked) (f ∷ fs) (r, rs) = ap suc (AllRead-length walked fs rs)

  AllRead-frames :
      (walked : List Entry) (fs : List FileEntry)
      → AllRead answers walked fs
      → map frame_of fs ≡ map received walked
  unfolding AllRead
  AllRead-frames [] [] r = refl
  AllRead-frames [] (f ∷ fs) r = absurd r
  AllRead-frames (e ∷ walked) [] r = absurd r
  AllRead-frames (e ∷ walked) (f ∷ fs) (r, rs) =
      cc (ap to_string_lossy r.relative_is, r.bytes_are, AllRead-frames walked fs rs)

  IsRead-Fits :
      (e : Entry) (f : FileEntry)
      → IsRead answers e f
      → IsSteady e
      → e.size ≤ max_entry_bytes
      → Fits f
  IsRead-Fits e f r s small = record {
    path_fits = rw r.relative_is s.path_fits;
    bytes_fit = rw r.size_is small;
    is_whole =
        rw (r.bytes_are, r.size_is)
          (omega (arith, length-take e.size (content (answers e.fd)), s.not_shrunk));
  }

  AllRead-Fits :
      (walked : List Entry) (fs : List FileEntry)
      → AllRead answers walked fs
      → All IsSteady walked
      → All (λ e. e.size ≤ max_entry_bytes) walked
      → All Fits fs
  unfolding AllRead
  AllRead-Fits [] [] r s m = tt
  AllRead-Fits [] (f ∷ fs) r s m = absurd r
  AllRead-Fits (e ∷ walked) [] r s m = absurd r
  AllRead-Fits (e ∷ walked) (f ∷ fs) (r, rs) (s, ss) (m, ms) =
      (IsRead-Fits e f r s m, AllRead-Fits walked fs rs ss ms)

-- A walk under the default limits always meets the reader's limits on entries and sizes: if the
-- walk and the reading succeed, no path is too long and no file has shrunk in between, the reader
-- receives every walked file, in order, with its first `size` bytes.
pub delivery :
    (root : Node) (root_name : Option Bytes) (answers : ℕ → Answers) (walked : List Entry)
    (fs : List FileEntry)
    → walk root root_name default_limits ≡ ok walked
    → build_fileset answers walked ≡ ok fs
    → All (IsSteady answers) walked
    → read_frames (encode fs) ≡ ok (map (received answers) walked, [])
delivery root root_name answers walked fs w b steady =
    let limits =
      walk-Respects root root_name default_limits walked
        (record { no_overflow = omega arith; some_file = omega arith }) w in
    let r = build_fileset-AllRead answers walked fs b in
    let count = AllRead-length answers walked fs r in
    let fit = AllRead-Fits answers walked fs r steady limits.each_fits in
    ap read_frames (sym (append-nil (encode fs)))
    ∙ read_frames-encode fs [] (omega (arith, count, limits.files_fit)) fit
    ∙ ap (λ (t : List Frame). ok (t, [])) (AllRead-frames answers walked fs r)
