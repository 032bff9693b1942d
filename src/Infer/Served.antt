-- ===== src/Infer/Served.antt =====
-- The exchange with a server that reads a request by its Content-Length and answers with a head that may
-- depend on the body.
use seck.Base.{
  ℕ, zero, suc, ◌+◌, ◌*◌, ◌-◌, ◌/◌, ◌%◌, ◌<◌, ◌≡◌, refl, sym, ap, ◌∙◌, arith, true, ◌&&◌,
  Bool-cases, inl, inr, Option, none, some, List, [], ◌∷◌, ◌++◌, append_assoc, append-nil,
  if◌then◌else◌, ltb, leb, take, take-append, length, All, Bytes, Text,
}
use seck.Base.Outcome.{ok}
use seck.Base.Strings.{codes, decimal, decimal_loop, strip_prefix, after_first}
use seck.Base.Utf8.{is_utf8, to_string_lossy_valid}
use seck.Pipeline.{InferenceConfig}
use seck.Infer.Ollama.{
  Daemon, blank_line, second_part, answer_of, read_answer, exchange, head_of, request_of,
  ask_daemon, ollama_generate,
}
use seck.Infer.Http.{
  HasNoReturn, head_text, IsHeader, after_first-head, until-HasNoReturn, after_first-request,
}

-- How a server reads a request: the number in Content-Length, and as many bytes behind the blank line; it
-- waits while they are not there.
unfoldable pub read_number : ℕ → Text → ℕ
read_number n [] = n
read_number n (c ∷ s) =
    let rest = read_number (n * 10 + (c - b'0')) s in if leb b'0' c && leb c b'9' then rest else n

abbrev pub first_bytes : ℕ → Bytes → Option Bytes
first_bytes n b = if leb n (length b) then some (take n b) else none

abbrev pub counted : Text → Option Bytes → Option Bytes
counted t none = none
counted t (some b) = first_bytes (read_number 0 t) b

unfoldable pub request_body : Bytes → Option Bytes
unfolding read_number after_first
request_body sent = elim (after_first (codes "\r\nContent-Length: ") sent) [
  | none ↦ none
  | some t ↦ counted t (after_first blank_line sent)
]

read_digit :
    (n k : ℕ) (s : Text) → k < 10 → read_number n ((b'0' + k) ∷ s) ≡ read_number (n * 10 + k) s
unfolding read_number
read_digit n k s h =
    let digit : (leb b'0' (b'0' + k) && leb (b'0' + k) b'9') ≡ true = ground (arith, h) in
    let same : n * 10 + (b'0' + k - b'0') ≡ n * 10 + k = omega arith in
    rw (digit, read_number) (ap (λ x. read_number x s) same)

read_number-decimal_loop :
    (fuel n : ℕ) (s : Text) → n < fuel → read_number 0 (decimal_loop fuel n s) ≡ read_number n s
unfolding decimal_loop
read_number-decimal_loop zero n s h = absurd (omega (arith, h))
read_number-decimal_loop (suc fuel) n s h = elim (Bool-cases (ltb n 10)) [
  | inl last ↦
      let same : 0 * 10 + n % 10 ≡ n = ground (arith, last) in
      rw last (read_digit 0 (n % 10) s (omega arith) ∙ ap (λ x. read_number x s) same)
  | inr more ↦
      let same : n / 10 * 10 + n % 10 ≡ n = omega arith in
      rw more (
        read_number-decimal_loop fuel (n / 10) ((b'0' + n % 10) ∷ s) (ground (arith, more, h))
        ∙ read_digit (n / 10) (n % 10) s (omega arith)
        ∙ ap (λ x. read_number x s) same)
]

decimal_loop-append :
    (fuel n : ℕ) (s t : Text) → decimal_loop fuel n s ++ t ≡ decimal_loop fuel n (s ++ t)
unfolding decimal_loop
decimal_loop-append zero n s t = refl
decimal_loop-append (suc fuel) n s t = elim (Bool-cases (ltb n 10)) [
  | inl last ↦ rw last refl
  | inr more ↦ rw more (decimal_loop-append fuel (n / 10) _ t)
]

read_number-decimal : (n : ℕ) (t : Text) → read_number 0 (decimal n ++ (codes "\r" ++ t)) ≡ n
unfolding decimal read_number
read_number-decimal n t =
    ap (read_number 0) (decimal_loop-append (n + 1) n [] (codes "\r" ++ t))
    ∙ read_number-decimal_loop (n + 1) n (codes "\r" ++ t) (omega arith)

first_bytes-length : (b : Bytes) → first_bytes (length b) b ≡ some b
first_bytes-length b =
    let all : leb (length b) (length b) ≡ true = ground arith in
    rw all (ap some (ap (take (length b)) (sym (append-nil b)) ∙ take-append b []))

-- Such a server finds the whole body in the request of the backend.
request_body-request : (body : Bytes) → request_body (head_of body ++ body) ≡ some body
unfolding request_body after_first strip_prefix head_of
request_body-request body =
    let end_of_head = codes "\r\nConnection: close\r\n\r\n" in
    ap (counted ((decimal (length body) ++ end_of_head) ++ body)) (after_first-request body)
    ∙ ap (λ n. first_bytes n body)
        (ap (read_number 0) (append_assoc (decimal (length body)) end_of_head body)
          ∙ read_number-decimal (length body) (codes "\nConnection: close\r\n\r\n" ++ body))
    ∙ first_bytes-length body

-- A response with a status line, fields and a body.
abbrev pub response : Text → (Bytes → List Text) → Bytes → Bytes
response l ls body = head_text (l ∷ ls body) ++ (codes "\r\n" ++ body)

-- A daemon that answers the body of a request with a body of its own, which its fields may depend on.
pub record Serves (d : Daemon) (uds : Bytes) (serve : Bytes → Bytes) (l : Text)
    (ls : Bytes → List Text) : Type 0 where
  pub first : IsHeader l
  pub others : (body : Bytes) → All IsHeader (ls body)
  pub connects : d.connect uds ≡ ok tt
  pub takes : (s : Bytes) → d.write_all s ≡ ok tt
  pub replies :
      (sent body : Bytes)
      → request_body sent ≡ some body
      → d.read_to_end sent ≡ ok (response l ls (serve body))

module _ (d : Daemon) (uds : Bytes) (serve : Bytes → Bytes) (l : Text)
    (ls : Bytes → List Text) where
  exchange-Serves :
      (body : Bytes)
      → Serves d uds serve l ls
      → exchange d uds body ≡ ok (response l ls (serve body))
  unfolding exchange
  exchange-Serves body h =
      rw
        (
          h.connects,
          h.takes (head_of body),
          h.takes body,
          h.replies _ body (request_body-request body),
        )
        refl

  second_part-response :
      (body : Text)
      → IsHeader l
      → All IsHeader (ls body)
      → HasNoReturn body
      → second_part (response l ls body) ≡ some body
  unfolding second_part
  second_part-response body h hs n =
      rw (second_part, after_first-head l (ls body) body h hs, until-HasNoReturn body n) refl

  -- The backend returns what the daemon makes of the JSON of the prompt: a daemon that takes as many bytes
  -- behind the blank line as Content-Length says finds it whole in the request, and the backend finds the
  -- JSON of the daemon in the response, whatever its head says of it, if the response is UTF-8, unchunked,
  -- and its JSON has no carriage return.
  pub ollama_generate-answers :
      (cfg : InferenceConfig) (prompt : Text) (body : Bytes) (v : d.Value)
      → Serves d uds serve l ls
      → d.to_vec (request_of d cfg prompt) ≡ ok body
      → is_utf8 (response l ls (serve body)) ≡ true
      → HasNoReturn (serve body)
      → d.from_str (serve body) ≡ ok v
      → ollama_generate d prompt (record { uds = uds; cfg = some cfg })
        ≡ ok (answer_of (d.response v), record { uds = uds; cfg = some cfg })
  unfolding ollama_generate
  ollama_generate-answers cfg prompt body v h e valid n p =
      rw (e, ask_daemon, exchange-Serves body h, read_answer, to_string_lossy_valid _ valid)
        (rw (second_part-response (serve body) h.first (h.others (serve body)) n, p) refl)
