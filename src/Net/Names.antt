-- ===== src/Net/Names.antt =====
-- The names of kernel/net.cpp's name service: they are read to the end, within the buffer.
use cofeuos.Base.{
  ℕ, zero, suc, ◌+◌, ◌-◌, ◌*◌, ◌%◌, ◌<◌, ◌≤◌, ◌≡◌, refl, ap, ◌||◌, List, [], ◌∷◌, ◌++◌, Option,
  none, some, ltb, leb, ◌==◌, arith, Bool-cases, inl, inr, length, length-append,
}
use cofeuos.Net.{Bytes}
use cofeuos.Net.Dns.{read_loop, bytes_from, behind, dns_read_name}

length-bytes_from : (n : ℕ) (d : Bytes) (i : ℕ) → length (bytes_from n d i) ≡ n
unfolding bytes_from
length-bytes_from zero d i = refl
length-bytes_from (suc n) d i = ap suc (length-bytes_from n d (i + 1))

length-label :
    (out : List ℕ) (n : ℕ) (d : Bytes) (i : ℕ)
    → length (out ++ (bytes_from n d i ++ (46 ∷ []))) ≡ length out + n + 1
length-label out n d i = omega (
  arith,
  length-append out (bytes_from n d i ++ (46 ∷ [])),
  length-append (bytes_from n d i) (46 ∷ []),
  length-bytes_from n d i,
)

module _ (d : Bytes) (limit cap : ℕ) where
  abbrev pub FitsIn : Option (ℕ × List ℕ) → Type 0
  FitsIn none = Unit {0}
  FitsIn (some (a, n)) = length n ≤ cap - 1

  -- The rounds that are left: each label fills the buffer, and 12 jumps are allowed.
  read_loop_ends :
      (k : ℕ) (out : List ℕ) (jumps : ℕ) (after : Option ℕ) (cur : ℕ)
      → jumps ≤ 12
      → length out ≤ cap - 1
      → (cap - length out) + (12 - jumps) < k
      → (r : Option (ℕ × List ℕ)) × FitsIn r
        × ((m : ℕ) → k ≤ m → read_loop m d limit cap out jumps after cur ≡ some r)
  unfolding read_loop
  read_loop_ends zero out jumps after cur le fits hk = absurd (omega arith)
  read_loop_ends (suc k) out jumps after cur le fits hk = elim (Bool-cases (ltb limit (cur + 1))) [
    | inl h ↦ (none, tt, stops none (λ m. rw h refl))
    | inr h1 ↦ elim (Bool-cases (leb 64 (d cur))) [
      | inl h2 ↦ elim (Bool-cases (leb 12 jumps || leb limit (cur + 1))) [
        | inl h ↦ (none, tt, stops none (λ m. rw (h1, h2, h) refl))
        | inr h3 ↦
            let (r, f, e) =
              read_loop_ends k out (jumps + 1) (some (behind after (cur + 2)))
                (d cur % 64 * 256 + d (cur + 1)) (ground arith) fits (ground arith) in
            (r, f, goes r (λ m le'. rw (h1, h2, h3) (e m le')))
      ]
      | inr h2 ↦ elim (Bool-cases (d cur == 0)) [
        | inl h ↦ (some (behind after (cur + 1), out), fits, stops _ (λ m. rw (h1, h2, h) refl))
        | inr h3 ↦ elim (Bool-cases (ltb limit (cur + 1 + d cur))) [
          | inl h ↦ (none, tt, stops none (λ m. rw (h1, h2, h3, h) refl))
          | inr h4 ↦ elim (Bool-cases (leb (cap - 1) (length out + d cur))) [
            | inl h ↦ (none, tt, stops none (λ m. rw (h1, h2, h3, h4, h) refl))
            | inr h5 ↦
                let longer : length (out ++ (bytes_from (d cur) d (cur + 1) ++ (46 ∷ [])))
                    ≡ length out + d cur + 1 =
                  length-label out (d cur) d (cur + 1) in
                let (r, f, e) =
                  read_loop_ends k (out ++ (bytes_from (d cur) d (cur + 1) ++ (46 ∷ []))) jumps
                    after (cur + 1 + d cur) le (ground arith) (ground arith) in
                (r, f, goes r (λ m le'. rw (h1, h2, h3, h4, h5) (e m le')))
          ]
        ]
      ]
    ]
  ]
    where
      stops :
          (r : Option (ℕ × List ℕ))
          → ((m : ℕ) → read_loop (suc m) d limit cap out jumps after cur ≡ some r)
          → (m : ℕ) → suc k ≤ m
          → read_loop m d limit cap out jumps after cur ≡ some r
      stops r e zero h = absurd (omega arith)
      stops r e (suc m) h = e m

      goes :
          (r : Option (ℕ × List ℕ))
          → ((m : ℕ) → k ≤ m → read_loop (suc m) d limit cap out jumps after cur ≡ some r)
          → (m : ℕ) → suc k ≤ m
          → read_loop m d limit cap out jumps after cur ≡ some r
      goes r e zero h = absurd (omega arith)
      goes r e (suc m) h = e m (omega arith)

  -- Whatever the packet holds, `dns_read_name` comes to an end: the loop is through after at most
  -- `cap` and 14 rounds, with the same result for every bound on its rounds from there on. The
  -- name that it gives fits the buffer with a byte to spare.
  pub dns_read_name_lem :
      (pos k : ℕ)
      → 0 < k
      → (read_loop (cap + 13 + k) d limit cap [] 0 none pos ≡ some (dns_read_name d pos limit cap))
        × FitsIn (dns_read_name d pos limit cap)
  unfolding dns_read_name
  dns_read_name_lem pos k lt =
      let (r, f, e) =
        read_loop_ends (cap + 13) [] 0 none pos (omega arith) (omega arith) (omega arith) in
      let here : read_loop (cap + 14) d limit cap [] 0 none pos ≡ some r =
        e (cap + 14) (omega arith) in
      rw (here, e (cap + 13 + k) (omega arith)) (refl, f)
