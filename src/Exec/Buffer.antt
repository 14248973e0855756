-- ===== src/Exec/Buffer.antt =====
-- `cappedBuffer` of internal/ssh/exec.go, and `StdoutTruncated` and `StderrTruncated`. `total` is an
-- `int64`, kept as its bit pattern; `limit` and the kept bytes are never negative.
pub mod Prefix
use kimi_ssh.Base.{
  ℕ, ◌+◌, ◌-◌, ◌%◌, ◌^◌, Bool, true, false, ◌&&◌, List, [], ◌∷◌, ◌++◌, if◌then◌else◌, ltb, length,
  take,
}
use kimi_ssh.Base.Text.{Text}

pub record CappedBuffer : Type 0 where
  pub buffer : Text
  pub total : ℕ
  pub limit : ℕ

abbrev pub empty_buffer : ℕ → CappedBuffer
empty_buffer limit = record { buffer = []; total = 0; limit = limit }

-- `Write`, without the length that it always reports. `room > 0` is `length buffer < limit`.
unfoldable pub write : CappedBuffer → Text → CappedBuffer
write c chunk =
    let counted = record c { total = (c.total + length chunk) % 2 ^ 64 } in
    let room = c.limit - length c.buffer in
    if ltb 0 room
    then record counted {
      buffer = c.buffer ++ (if ltb room (length chunk) then take room chunk else chunk);
    }
    else counted

-- `io.Copy` into the buffer: the chunks in the order in which they arrive.
unfoldable pub write_all : CappedBuffer → List Text → CappedBuffer
unfolding write
write_all c [] = c
write_all c (chunk ∷ chunks) = write_all (write c chunk) chunks

-- `a > b` of two `int64`, `a` by its bit pattern and `b` not negative.
abbrev pub exceeds : ℕ → ℕ → Bool
exceeds a b = ltb a (2 ^ 63) && ltb b a

-- `o.StdoutBytes > int64(len(o.Stdout))`
unfoldable pub is_truncated : ℕ → Text → Bool
is_truncated total kept = exceeds total (length kept)
