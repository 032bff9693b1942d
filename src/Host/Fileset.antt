-- ===== src/Host/Fileset.antt =====
-- `build_fileset` of crates/seck-host/src/fileset.rs. The answers of `read` on an open file are a
-- parameter: `some chunk` are the bytes of one call, of which the empty one is the end of the file,
-- and `none` is an errno. Where the answers end, so does the file.
use mathlib.Core.Path.{subst}
use seck.Base.{
  ℕ, zero, suc, ◌≤◌, ◌≡◌, refl, sym, ap, ◌∙◌, arith, Option, none, some, List, [], ◌∷◌, ◌++◌, leb,
  leb→le, ◌==◌, if◌then◌else◌, Bool-cases, inl, inr, append-nil, append_assoc, length, take, Bytes,
}
use seck.Base.Outcome.{Result, ok, err, ◌>>=◌, bind-eq-ok, ok-injective}
use seck.Wire.{FileEntry}
use seck.Host.Walker.{Entry}

pub data FileSetError : Type 0 where
  io nix : FileSetError

abbrev pub Answers : Type 0
Answers = List (Option Bytes)

unfoldable pub read_loop : ℕ → Bytes → Answers → Result FileSetError Bytes
read_loop size buf [] = ok buf
read_loop size buf (none ∷ rest) = err nix
read_loop size buf (some tmp ∷ rest) =
    let buf' = buf ++ tmp in
    let more = read_loop size buf' rest in
    if length tmp == 0 then ok buf else if leb size (length buf') then ok (take size buf') else more

module _ (answers : ℕ → Answers) where
  unfoldable pub build_fileset : List Entry → Result FileSetError (List FileEntry)
  unfolding read_loop
  build_fileset [] = ok []
  build_fileset (e ∷ walked) = do
    buf ← read_loop e.size [] (answers e.fd)
    out ← build_fileset walked
    ok (record { relative = e.relative; bytes = buf; size = e.size } ∷ out)

-- What the file held while it was read: the chunks up to the end of the file.
unfoldable pub content : Answers → Bytes
content [] = []
content (none ∷ rest) = []
content (some tmp ∷ rest) = if length tmp == 0 then [] else tmp ++ content rest

take-append_le {ℓ} :
    {A : Type ℓ} (n : ℕ) (xs ys : List A) → n ≤ length xs → take n (xs ++ ys) ≡ take n xs
take-append_le zero xs ys h = refl
take-append_le (suc n) [] ys h = absurd (omega arith)
take-append_le (suc n) (x ∷ xs) ys h = ap (◌∷◌ x) (take-append_le n xs ys (omega arith))

take_all {ℓ} : {A : Type ℓ} (n : ℕ) (xs : List A) → length xs ≤ n → take n xs ≡ xs
take_all zero [] h = refl
take_all zero (x ∷ xs) h = absurd (omega arith)
take_all (suc n) [] h = refl
take_all (suc n) (x ∷ xs) h = ap (◌∷◌ x) (take_all n xs (omega arith))

end_of_file : (size : ℕ) (buf : Bytes) → length buf ≤ size → buf ≡ take size (buf ++ [])
end_of_file size buf fits = sym (rw append-nil (take_all size buf fits))

-- The loop returns the first `size` bytes of the file, or all of it where it has grown shorter.
read_loop-take :
    (size : ℕ) (buf out : Bytes) (a : Answers)
    → length buf ≤ size
    → read_loop size buf a ≡ ok out
    → out ≡ take size (buf ++ content a)
unfolding read_loop content
read_loop-take size buf out [] fits h = sym (ok-injective h) ∙ end_of_file size buf fits
read_loop-take size buf out (none ∷ a) fits h = cc
read_loop-take size buf out (some tmp ∷ a) fits h = elim (Bool-cases (length tmp == 0)) [
  | inl last ↦
      rw (last, content)
        (sym (ok-injective (rw (last, read_loop) at h)) ∙ end_of_file size buf fits)
  | inr more ↦ elim (Bool-cases (leb size (length (buf ++ tmp)))) [
    | inl full ↦
        rw (more, content, ← append_assoc buf tmp (content a))
          (sym (ok-injective (rw (more, full, read_loop) at h))
            ∙ sym (take-append_le size (buf ++ tmp) (content a) (leb→le _ _ full)))
    | inr short ↦
        rw (more, content, ← append_assoc buf tmp (content a))
          (read_loop-take size (buf ++ tmp) out a (ground arith) (rw (more, short, read_loop) at h))
  ]
]

-- Each walked entry against the file that the host sends for it.
pub record IsRead (answers : ℕ → Answers) (e : Entry) (f : FileEntry) : Type 0 where
  pub relative_is : f.relative ≡ e.relative
  pub size_is : f.size ≡ e.size
  pub bytes_are : f.bytes ≡ take e.size (content (answers e.fd))

unfoldable pub AllRead : (ℕ → Answers) → List Entry → List FileEntry → Type 0
AllRead answers [] [] = Unit
AllRead answers (e ∷ walked) (f ∷ fs) = IsRead answers e f × AllRead answers walked fs
AllRead answers _ _ = ⊥

-- The file set has one file for each walked entry, in order, with the path and the size that the
-- walk saw, and the first bytes that the file held when it was read: `size` of them, or fewer if
-- the file had grown shorter.
pub build_fileset-AllRead :
    (answers : ℕ → Answers) (walked : List Entry) (fs : List FileEntry)
    → build_fileset answers walked ≡ ok fs
    → AllRead answers walked fs
unfolding build_fileset AllRead
build_fileset-AllRead answers [] [] h = tt
build_fileset-AllRead answers [] (f ∷ fs) h = cc
build_fileset-AllRead answers (e ∷ walked) fs h =
    let (buf, e₁, h₁) = bind-eq-ok (read_loop e.size [] (answers e.fd)) _ h in
    let (out, e₂, h₂) = bind-eq-ok (build_fileset answers walked) _ h₁ in
    subst (AllRead answers (e ∷ walked)) (ok-injective h₂) (
      record {
        relative_is = refl;
        size_is = refl;
        bytes_are = read_loop-take e.size [] buf (answers e.fd) (omega arith) e₁;
      },
      build_fileset-AllRead answers walked out e₂,
    )
