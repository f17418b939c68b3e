-- ===== src/Checks/Http/Head.antt =====
-- How much of an answer is read.
use mojodns.Prelude.{
  ℕ, zero, suc, ◌+◌, ◌≤◌, ◌<◌, true, false, [], ◌∷◌, ◌++◌, Option, none, some, length,
  length-append, ◌≡◌, refl, Bool-cases, arith, inl, inr,
}
use mojodns.Text.{Text}
use mojodns.Checks.Http.{Socket, wants_more, read_head, received}

abbrev chunk_length : Option Text → ℕ
chunk_length none = 0
chunk_length (some chunk) = length chunk

-- A socket whose `recv` returns at most `size` bytes.
abbrev pub IsBounded : {N : Type 0} → ℕ → Socket N → Type 0
IsBounded {N} size sock = (n : N) → chunk_length (sock.recv n).0 ≤ size

wants_more-short : (buf : Text) → wants_more buf ≡ true → length buf < 16384
unfolding wants_more
wants_more-short buf h = ground (arith, h)

wants_more-full : (buf : Text) → 16384 ≤ length buf → wants_more buf ≡ false
unfolding wants_more
wants_more-full buf h = ground (arith, h)

-- However the answer arrives, the panel holds fewer than 16384 bytes and one more chunk of it.
pub length-read_head :
    {N : Type 0} (size : ℕ) (sock : Socket N)
    → IsBounded size sock
    → (fuel : ℕ) (buf : Text) (n : N) → length buf ≤ 16383 + size
    → length (read_head fuel sock buf n).0 ≤ 16383 + size
unfolding read_head
length-read_head size sock bounded zero buf n h = h
length-read_head {N} size sock bounded (suc fuel) buf n h = elim (Bool-cases (wants_more buf)) [
  | inl e ↦ rw e (
      go (wants_more-short buf e) (sock.recv n) (bounded n)
        (length-read_head size sock bounded fuel))
  | inr e ↦ rw e h
]
  where
    go :
        length buf < 16384
        → (r : Option Text × N) → chunk_length r.0 ≤ size
        → ((t : Text) (m : N)
            → length t ≤ 16383 + size
            → length (read_head fuel sock t m).0 ≤ 16383 + size)
        → length (received r (read_head fuel sock) buf).0 ≤ 16383 + size
    go short (none, m) b again = h
    go short (some [], m) b again = h
    go short (some (c ∷ cs), m) b again =
        again (buf ++ c ∷ cs) m (omega (arith, length-append buf (c ∷ cs), short, b))

-- The loop ends on its own: fuel for the bytes that are missing to 16384 is enough, more changes nothing.
pub read_head-fuel :
    {N : Type 0} (sock : Socket N) (m k : ℕ) (buf : Text) (n : N)
    → 16384 ≤ length buf + m
    → 16384 ≤ length buf + k
    → read_head m sock buf n ≡ read_head k sock buf n
unfolding read_head
read_head-fuel sock zero zero buf n hm hk = refl
read_head-fuel sock zero (suc k) buf n hm hk = rw (wants_more-full buf (omega (arith, hm))) refl
read_head-fuel sock (suc m) zero buf n hm hk = rw (wants_more-full buf (omega (arith, hk))) refl
read_head-fuel {N} sock (suc m) (suc k) buf n hm hk = elim (Bool-cases (wants_more buf)) [
  | inl e ↦ rw e (go (sock.recv n) (read_head-fuel sock m k))
  | inr e ↦ rw e refl
]
  where
    go :
        (r : Option Text × N)
        → ((t : Text) (s : N)
            → 16384 ≤ length t + m
            → 16384 ≤ length t + k
            → read_head m sock t s ≡ read_head k sock t s)
        → received r (read_head m sock) buf ≡ received r (read_head k sock) buf
    go (none, s) again = refl
    go (some [], s) again = refl
    go (some (c ∷ cs), s) again =
        again (buf ++ c ∷ cs) s (omega (arith, length-append buf (c ∷ cs), hm))
          (omega (arith, length-append buf (c ∷ cs), hk))
