-- ===== src/Portal/Serve.antt =====
-- A request, and the requests of a connection. `parse_request` and `print_response` are JSON, and
-- `decode` is base64.
pub mod Writes
use weft_os.Base.{
  ℕ, zero, suc, ◌+◌, Bool, true, false, not, List, [], ◌∷◌, ◌++◌, Option, none, some, Text, codes,
  ltb, ◌==◌, ends_with, length, is_empty, Result, ok, err, ◌>>=◌, if◌then◌else◌,
}
use weft_os.Portal.{
  max_line, Request, read_file, write_file, list_dir, Response, failed, Root, locate,
}
use weft_os.Portal.Kernel.{Errno, Kernel}
use weft_os.Portal.Files.{read, list, write}

-- `unwrap_or_else(|response| response)`
answer : Result Response Response → Response
answer (ok r) = r
answer (err r) = r

-- the bytes up to and with a line feed, at most `n`, and the rest: `take(n).read_until`
pub read_line : ℕ → Text → Text × Text
read_line zero s = ([], s)
read_line (suc n) [] = ([], [])
read_line (suc n) (b ∷ s) =
    let (line, rest) = read_line n s in if b == b'\n' then (b ∷ [], s) else (b ∷ line, rest)

-- `strip_suffix` of one byte
strip_last : ℕ → Text → Text
strip_last c [] = []
strip_last c (b ∷ []) = if b == c then [] else b ∷ []
strip_last c (a ∷ b ∷ s) = a ∷ strip_last c (b ∷ s)

-- `trim_end_matches(['\n', '\r'])`
trim_line : Text → Text
trim_line [] = []
trim_line (b ∷ s) =
    let rest = trim_line s in
    if is_empty rest
    then (if b == b'\n' then [] else if b == b'\r' then [] else b ∷ [])
    else b ∷ rest

module _ {ℓ} {S Fd : Type ℓ} (k : Kernel S Fd) (errno_text : Errno → Text) (stamp : ℕ → Text)
    (encode : Text → Text) (decode : Text → Result Text Text) where
  decoded : Result Text Text → Result Response Text
  decoded (ok bytes) = ok bytes
  decoded (err e) = err (failed (codes "bad base64: " ++ e))

  write_decoded :
      S × ℕ → Root Fd → List Text → Result Response Text → (S × ℕ) × Result Response Response
  write_decoded st root names (err e) = (st, err e)
  write_decoded st root names (ok bytes) = write k errno_text stamp st root names bytes

  write_located :
      S × ℕ → Text → Result Response (Root Fd × List Text) → (S × ℕ) × Result Response Response
  unfolding write_decoded decoded
  write_located st data_b64 (err e) = (st, err e)
  write_located st data_b64 (ok (root, names)) =
      write_decoded st root names (decoded (decode data_b64))

  request_result : List (Root Fd) → S × ℕ → Request → (S × ℕ) × Result Response Response
  unfolding write_located
  request_result roots st (read_file path) =
      (st, locate roots path false >>= λ (root, names). read k errno_text encode st.0 root names)
  request_result roots st (write_file path data_b64) =
      write_located st data_b64 (locate roots path true)
  request_result roots st (list_dir path) =
      (st, locate roots path false >>= λ (root, names). list k errno_text st.0 root names)

  unfoldable pub handle_request : List (Root Fd) → S × ℕ → Request → (S × ℕ) × Response
  unfolding request_result answer
  handle_request roots st request =
      let outcome = request_result roots st request in (outcome.0, answer outcome.1)

  module _ (parse_request : Text → Result Text Request) (print_response : Response → Text) where
    too_long : Text → Bool
    too_long line = ltb max_line (length (strip_last b'\r' (strip_last b'\n' line)))

    respond : List (Root Fd) → S × ℕ → Result Text Request → (S × ℕ) × Response
    respond roots st (ok request) = handle_request roots st request
    respond roots st (err e) = (st, failed (codes "bad request: " ++ e))

    -- one turn of the loop: the state, what is written, and whether the connection goes on
    turn : List (Root Fd) → S × ℕ → Text → (S × ℕ) × Text × Bool
    unfolding respond too_long
    turn roots st line =
        let text = trim_line line in
        let replied = respond roots st (parse_request text) in
        if too_long line
        then (st, codes "{\"error\":\"request too long\"}\n", false)
        else if is_empty text
        then (st, [], true)
        else (replied.0, print_response replied.1 ++ b'\n' ∷ [], true)

    abbrev Served : Type ℓ
    Served = (S × ℕ) × Text

    go_on : (S × ℕ → Text → Served) → Text → (S × ℕ) × Text × Bool → Served
    go_on next rest (st, out, false) = (st, out)
    go_on next rest (st, out, true) = let later = next st rest in (later.0, out ++ later.1)

    with_line : (S × ℕ → Text → Served) → List (Root Fd) → S × ℕ → Text × Text → Served
    unfolding go_on turn
    with_line next roots st ([], rest) = (st, [])
    with_line next roots st (b ∷ line, rest) = go_on next rest (turn roots st (b ∷ line))

    -- the loop, while the peer sends `input` and takes every response
    unfoldable pub serve : ℕ → List (Root Fd) → S × ℕ → Text → Served
    unfolding with_line trim_line strip_last
    serve zero roots st input = (st, [])
    serve (suc fuel) roots st input =
        with_line (λ st' rest. serve fuel roots st' rest) roots st (read_line (max_line + 3) input)

    unfoldable pub handle_connection : List (Root Fd) → S × ℕ → Text → Served
    handle_connection roots st input = serve (length input + 1) roots st input
