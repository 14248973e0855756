-- ===== src/Exec/Buffer/Prefix.antt =====
-- `cappedBuffer` after a whole stream.
use kimi_ssh.Base.{
  ℕ, zero, suc, ◌+◌, ◌-◌, ◌%◌, ◌^◌, ◌≤◌, ◌<◌, true, ◌≡◌, ◌↔◌, refl, sym, ap, ◌∙◌, inl, inr, List,
  [], ◌∷◌, ◌++◌, append_assoc, append-nil, arith, ltb, length, length-append, length-take, take,
  Bool-cases,
}
use kimi_ssh.Base.Text.{Text}
use kimi_ssh.Exec.Buffer.{CappedBuffer, empty_buffer, write, write_all, is_truncated}

-- The whole stream.
abbrev pub concat : List Text → Text
concat [] = []
concat (chunk ∷ chunks) = chunk ++ concat chunks

take_all : (n : ℕ) (s : Text) → length s ≤ n → take n s ≡ s
take_all zero [] h = refl
take_all zero (c ∷ s) h = absurd (omega arith)
take_all (suc n) [] h = refl
take_all (suc n) (c ∷ s) h = ap (◌∷◌ c) (take_all n s (omega arith))

take-append : (n : ℕ) (s t : Text) → take n (s ++ t) ≡ take n s ++ take (n - length s) t
take-append zero [] t = refl
take-append zero (c ∷ s) t = let e : 0 - length (c ∷ s) ≡ 0 = omega arith in rw e
take-append (suc n) [] t = let e : suc n - 0 ≡ suc n = omega arith in rw e
take-append (suc n) (c ∷ s) t =
    let e : suc n - suc (length s) ≡ n - length s = omega arith in
    rw e (ap (◌∷◌ c) (take-append n s t))

-- What the buffer holds after it was given a stream.
pub record Holds (limit : ℕ) (stream : Text) (c : CappedBuffer) : Type 0 where
  pub kept : c.buffer ≡ take limit stream
  pub counted : c.total ≡ length stream % 2 ^ 64
  pub capped : c.limit ≡ limit

write_lem :
    (c : CappedBuffer) (chunk : Text)
    → ((write c chunk).buffer ≡ c.buffer ++ take (c.limit - length c.buffer) chunk)
      × ((write c chunk).total ≡ (c.total + length chunk) % 2 ^ 64)
      × ((write c chunk).limit ≡ c.limit)
unfolding write
write_lem c chunk = elim (Bool-cases (ltb 0 (c.limit - length c.buffer))) [
  | inl e ↦ elim (Bool-cases (ltb (c.limit - length c.buffer) (length chunk))) [
    | inl f ↦ rw (e, f) (refl, refl, refl)
    | inr f ↦
        let whole : take (c.limit - length c.buffer) chunk ≡ chunk =
          take_all (c.limit - length c.buffer) chunk (ground arith) in
        rw (e, f) (ap (◌++◌ c.buffer) (sym whole), refl, refl)
  ]
  | inr e ↦
      let full : c.limit - length c.buffer ≡ 0 = ground arith in
      rw (e, full) (sym (append-nil c.buffer), refl, refl)
]

write-Holds :
    (limit : ℕ) (stream chunk : Text) (c : CappedBuffer)
    → Holds limit stream c
    → Holds limit (stream ++ chunk) (write c chunk)
write-Holds limit stream chunk c h =
    let (buffer, total, capped) = write_lem c chunk in
    let room : c.limit - length c.buffer ≡ limit - length stream =
      omega (arith, ap length h.kept, length-take limit stream, h.capped) in
    record {
      kept =
          buffer
          ∙ ap (λ r. c.buffer ++ take r chunk) room
          ∙ ap (λ s. s ++ take (limit - length stream) chunk) h.kept
          ∙ sym (take-append limit stream chunk);
      counted = total ∙ omega (arith, h.counted, length-append stream chunk);
      capped = capped ∙ h.capped;
    }

take_none : (n : ℕ) → take {A = ℕ} n [] ≡ []
take_none zero = refl
take_none (suc n) = refl

write_all-Holds :
    (limit : ℕ) (stream : Text) (chunks : List Text) (c : CappedBuffer)
    → Holds limit stream c
    → Holds limit (stream ++ concat chunks) (write_all c chunks)
unfolding write_all
write_all-Holds limit stream [] c h = rw append-nil h
write_all-Holds limit stream (chunk ∷ chunks) c h =
    rw (← append_assoc stream chunk (concat chunks)) (
      write_all-Holds limit (stream ++ chunk) chunks (write c chunk)
        (write-Holds limit stream chunk c h))

-- However the stream is cut into chunks, the buffer ends with the first `limit` bytes of it and
-- with its length, as an `int64`.
pub write_all-empty :
    (limit : ℕ) (chunks : List Text)
    → ((write_all (empty_buffer limit) chunks).buffer ≡ take limit (concat chunks))
      × ((write_all (empty_buffer limit) chunks).total ≡ length (concat chunks) % 2 ^ 64)
write_all-empty limit chunks =
    let h : Holds limit (concat chunks) (write_all (empty_buffer limit) chunks) =
      write_all-Holds limit [] chunks (empty_buffer limit)
        (record { kept = sym (take_none limit); counted = refl; capped = refl }) in
    (h.kept, h.counted)

-- Truncation is reported exactly when the stream did not fit, for streams below 2^63 bytes.
pub is_truncated-write_all :
    (limit : ℕ) (chunks : List Text)
    → length (concat chunks) < 2 ^ 63
    → let c = write_all (empty_buffer limit) chunks in
      (is_truncated c.total c.buffer ≡ true) ↔ (limit < length (concat chunks))
unfolding is_truncated
is_truncated-write_all limit chunks h = ground (
  arith,
  write_all-empty limit chunks,
  length-take limit (concat chunks),
  ap length (write_all-empty limit chunks).0,
)
