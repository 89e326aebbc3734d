-- ===== src/Http/Body.antt =====
-- `read_limited_body` of backend/app/scanner/http_client.py: the chunks of a response are read until the
-- limit is reached.
use mathlib.Core.List.{append_assoc, append-nil}
use web_security_audit_platf.Prelude.{
  ℕ, ◌-◌, ◌≤◌, ◌≡◌, List, [], ◌∷◌, ◌++◌, length, length-append, length-take, take, refl,
  take-append, take-nil, concat, leb, leb→le, arith, sym, Bool-cases, inl, inr, if◌then◌else◌,
}

abbrev pub Bytes : Type 0
Bytes = List ℕ

-- The loop, with the body so far.
unfoldable pub read_chunks : ℕ → Bytes → List Bytes → Bytes
read_chunks limit body [] = body
read_chunks limit body (chunk ∷ rest) =
    let next = read_chunks limit (body ++ take (limit - length body) chunk) rest in
    if leb limit (length body) then body else next

unfoldable pub read_limited_body : List Bytes → ℕ → Bytes
unfolding read_chunks
read_limited_body chunks limit = read_chunks limit [] chunks

read_chunks-take :
    (limit : ℕ) (body : Bytes) (chunks : List Bytes)
    → length body ≤ limit
    → read_chunks limit body chunks ≡ body ++ take (limit - length body) (concat chunks)
unfolding read_chunks
read_chunks-take limit body [] h =
    rw (take-nil {A = ℕ} (limit - length body)) (sym (append-nil body))
read_chunks-take limit body (chunk ∷ rest) h = elim (Bool-cases (leb limit (length body))) [
  | inl full ↦
      let none_left : limit - length body ≡ 0 = omega (arith, leb→le limit (length body) full) in
      rw (full, none_left) (sym (append-nil body))
  | inr more ↦
      let left : limit - length (body ++ take (limit - length body) chunk)
          ≡ limit - length body - length chunk =
        omega (
          arith,
          length-append body (take (limit - length body) chunk),
          length-take (limit - length body) chunk,
        ) in
      let read = read_chunks-take limit (body ++ take (limit - length body) chunk) rest (
        omega (
          arith,
          length-append body (take (limit - length body) chunk),
          length-take (limit - length body) chunk,
        )) in
      rw (more, take-append (limit - length body) chunk (concat rest), read, left)
        (append_assoc body (take (limit - length body) chunk)
          (take (limit - length body - length chunk) (concat rest)))
]

-- The body that is read is the first `limit` bytes of the response, whatever its chunks.
pub read_limited_body-take :
    (chunks : List Bytes) (limit : ℕ) → read_limited_body chunks limit ≡ take limit (concat chunks)
unfolding read_limited_body
read_limited_body-take chunks limit =
    let whole : limit - 0 ≡ limit = omega arith in
    rw (read_chunks-take limit [] chunks (omega arith), whole) refl

pub read_limited_body_bound :
    (chunks : List Bytes) (limit : ℕ) → length (read_limited_body chunks limit) ≤ limit
read_limited_body_bound chunks limit =
    rw (read_limited_body-take chunks limit) (omega (arith, length-take limit (concat chunks)))
