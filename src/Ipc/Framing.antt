-- ===== src/Ipc/Framing.antt =====
-- internal/ipc/framing.go: length-prefixed frames. A byte is a number; the protobuf codec is the
-- argument `Codec`, with the law that a decoder reads back what the encoder wrote.
use emly_updater.Base.{
  ℕ, ◌+◌, ◌*◌, ◌/◌, ◌%◌, ◌^◌, ◌≤◌, ◌<◌, ◌≡◌, Option, none, some, Result, ok, err, List, [], ◌∷◌,
  ◌++◌, length, take, drop, ltb, arith, if◌then◌else◌, Option-cases, inl, inr, ap, ◌∙◌,
  length-append, take-append_length, drop-append_length,
}

abbrev pub max_frame_size : ℕ
max_frame_size = 64 * 1024

pub data Error : Type 0 where
  too_large : ℕ → Error
  short_prefix : Error
  short_body : Error
  bad_envelope : Error

-- proto.Marshal, which can fail, and proto.Unmarshal
pub record Codec (E : Type 0) : Type 0 where
  pub marshal : E → Option (List ℕ)
  pub unmarshal : List ℕ → Option E

pub record IsRoundTrip {E : Type 0} (c : Codec E) : Type 0 where
  pub reads_back : (e : E) (bs : List ℕ) → c.marshal e ≡ some bs → c.unmarshal bs ≡ some e

-- binary.BigEndian.PutUint32 of a uint32
unfoldable pub put_uint32 : ℕ → List ℕ
put_uint32 n = n / 2 ^ 24 % 256 ∷ n / 2 ^ 16 % 256 ∷ n / 2 ^ 8 % 256 ∷ n % 256 ∷ []

-- binary.BigEndian.Uint32
unfoldable pub uint32 : ℕ → ℕ → ℕ → ℕ → ℕ
uint32 a b c d = a * 2 ^ 24 + b * 2 ^ 16 + c * 2 ^ 8 + d

-- io.ReadFull of n bytes; the rest is what the reader still holds
read_full : ℕ → List ℕ → Option (List ℕ × List ℕ)
read_full n bs = if ltb (length bs) n then none else some (take n bs, drop n bs)

module _ {E : Type 0} (c : Codec E) where
  -- the bytes written to w, which takes them all
  unfoldable pub write_envelope : E → Result Error (List ℕ)
  write_envelope e = elim (c.marshal e) [
    | none ↦ err bad_envelope
    | some b ↦
        if ltb max_frame_size (length b)
        then err (too_large (length b))
        else ok (put_uint32 (length b % 2 ^ 32) ++ b)
  ]

  read_body : ℕ → List ℕ → Result Error (E × List ℕ)
  unfolding read_full
  read_body n bs = if ltb max_frame_size n then err (too_large n) else elim (read_full n bs) [
    | none ↦ err short_body
    | some (buf, rest) ↦ elim (c.unmarshal buf) [ none ↦ err bad_envelope | some e ↦ ok (e, rest) ]
  ]

  -- an envelope, and the bytes after it
  unfoldable pub read_envelope : List ℕ → Result Error (E × List ℕ)
  unfolding read_body uint32
  read_envelope (a ∷ b ∷ d ∷ f ∷ bs) = read_body (uint32 a b d f) bs
  read_envelope _ = err short_prefix

  read_body-frame :
      IsRoundTrip c
      → (e : E) (b rest : List ℕ) → c.marshal e ≡ some b
      → length b ≤ max_frame_size
      → read_body (length b) (b ++ rest) ≡ ok (e, rest)
  unfolding read_body
  read_body-frame law e b rest m s = ground (
    arith,
    law.reads_back e b m,
    length-append b rest,
    take-append_length b rest,
    drop-append_length b rest,
  )

  prefixed :
      (b rest : List ℕ)
      → length b ≤ max_frame_size
      → read_envelope ((put_uint32 (length b) ++ b) ++ rest) ≡ read_body (length b) (b ++ rest)
  unfolding read_envelope put_uint32
  prefixed b rest s = ap (λ n. read_body n (b ++ rest)) (omega arith)

  -- What one side writes the other reads, and the frames behind it are left in place.
  pub read_envelope-write :
      IsRoundTrip c
      → (e : E) (frame rest : List ℕ) → write_envelope e ≡ ok frame
      → read_envelope (frame ++ rest) ≡ ok (e, rest)
  unfolding write_envelope
  read_envelope-write law e frame rest h = elim (Option-cases (c.marshal e)) [
    | inl m ↦ absurd (ground arith)
    | inr (b, m) ↦
        let size : length b ≤ max_frame_size = ground arith in
        let framed : frame ≡ put_uint32 (length b) ++ b = ground arith in
        rw framed (prefixed b rest size ∙ read_body-frame law e b rest m size)
  ]

  -- No frame that is accepted is larger than the limit: a larger length prefix is refused from
  -- the prefix alone, whatever bytes follow.
  pub read_envelope_limited :
      (a b d f : ℕ) (bs : List ℕ)
      → max_frame_size < uint32 a b d f
      → read_envelope (a ∷ b ∷ d ∷ f ∷ bs) ≡ err (too_large (uint32 a b d f))
  unfolding read_envelope
  read_envelope_limited a b d f bs h = ground arith
