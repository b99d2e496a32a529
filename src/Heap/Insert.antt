-- ===== src/Heap/Insert.antt =====
-- The two merges of `insert_keep_coalesced` of kernel/memory.cpp.
use cofeuos.Base.{
  ℕ, suc, ◌+◌, ◌^◌, ◌≤◌, ◌<◌, ◌≡◌, refl, ◌≢◌, inl, inr, List, [], ◌∷◌, arith, ltb, ◌==◌, add64,
  Bool-cases, ==→eq, ==→ne,
}
use cofeuos.Heap.{update, below, from, Linked, merge_right, merge_left}
use cofeuos.Heap.Blocks.{
  hit, covers, bytes, IsBlock, Chain, covers_below, Chain-le, Chain-raise, Chain-agree,
}

-- `b` shares no byte with the chain.
abbrev pub Apart : (ℕ → ℕ) → ℕ → List ℕ → Type 0
Apart size b l = (x : ℕ) → hit size b x + covers size l x ≤ 1

-- The chain cut at `b`.
pub record Cuts (size : ℕ → ℕ) (b lo hi : ℕ) (l : List ℕ) : Type 0 where
  pub left : Chain size lo b (below b l)
  pub right : Chain size (b + size b) hi (from b l)
  pub parts : (x : ℕ) → covers size (below b l) x + covers size (from b l) x ≡ covers size l x
  pub total : bytes size (below b l) + bytes size (from b l) ≡ bytes size l

pub cut :
    (size : ℕ → ℕ) (b lo hi : ℕ) (l : List ℕ)
    → IsBlock size b
    → lo ≤ suc b
    → b + size b ≤ hi
    → Chain size lo hi l
    → Apart size b l
    → Cuts size b lo hi l
unfolding covers bytes below from
cut size b lo hi [] k h top c ap = record {
  left = h;
  right = omega arith;
  parts = λ x. refl;
  total = refl;
}
cut size b lo hi (a ∷ rest) k h top c ap = elim (Bool-cases (ltb a b)) [
  | inl lt ↦
      let ends : a + size a ≤ b = ground (arith, ap b, k.roomy) in
      let ih =
        cut size b (suc (a + size a)) hi rest k (omega arith) top c.2 (λ x. omega (arith, ap x)) in
      record {
        left = rw lt (c.0, c.1, ih.left);
        right = rw lt ih.right;
        parts = λ x. rw lt (omega (arith, ih.parts x));
        total = rw lt (omega (arith, ih.total));
      }
  | inr ge ↦
      let begins : b + size b ≤ a = ground (arith, ap a, c.1.roomy) in
      record {
        left = rw ge h;
        right = rw ge (begins, c.1, c.2);
        parts = λ x. rw ge (omega arith);
        total = rw ge (omega arith);
      }
]

-- The block at `b` and the chain behind it, before and after the merge.
pub record MergesRight (size : ℕ → ℕ) (b hi : ℕ) (l : List ℕ) (r : Linked) : Type 0 where
  pub block : IsBlock r.size_at b
  pub chain : Chain r.size_at (suc (b + r.size_at b)) hi r.chain
  pub others : (a : ℕ) → a ≢ b → r.size_at a ≡ size a
  pub same :
      (x : ℕ) → covers r.size_at r.chain x + hit r.size_at b x ≡ covers size l x + hit size b x
  pub total : bytes r.size_at r.chain + r.size_at b ≡ bytes size l + size b

pub merge_right-MergesRight :
    (size : ℕ → ℕ) (b hi : ℕ) (l : List ℕ)
    → IsBlock size b
    → b + size b ≤ hi
    → hi < 2 ^ 63
    → Chain size (b + size b) hi l
    → MergesRight size b hi l (merge_right size b l)
unfolding covers bytes merge_right
merge_right-MergesRight size b hi [] k h top c = record {
  block = k;
  chain = omega arith;
  others = λ a e. refl;
  same = λ x. refl;
  total = refl;
}
merge_right-MergesRight size b hi (a ∷ rest) k h top c =
    let end : a + size a ≤ hi = omega (arith, Chain-le size rest (suc (a + size a)) hi c.2) in
    let next : add64 b (size b) ≡ b + size b = omega arith in
    elim (Bool-cases (b + size b == a)) [
      | inl meet ↦
          let e : b + size b ≡ a = ==→eq _ _ meet in
          let sum : add64 (size b) (size a) ≡ size b + size a = omega arith in
          let new = update size b (size b + size a) in
          let here : new b ≡ size b + size a = ground arith in
          let same =
            Chain-agree size new rest (suc (a + size a)) hi (λ y lo' hi'. ground (arith, k.roomy))
              c.2 in
          rw (next, meet, sum)
            (record {
              block = record {
                address_aligned = k.address_aligned;
                size_aligned = omega (arith, here, k.size_aligned, c.1.size_aligned);
                roomy = omega (arith, here, k.roomy);
              };
              chain =
                  Chain-raise new rest (suc (a + size a)) (suc (b + new b)) hi same.0
                    (omega (arith, here));
              others = λ y ne. ground arith;
              same = λ x. ground (arith, same.1 x);
              total = omega (arith, here, same.2);
            })
      | inr gap ↦
          let e : b + size b ≢ a = ==→ne _ _ gap in
          rw (next, gap)
            (record {
              block = k;
              chain = (omega (arith, c.0), c.1, c.2);
              others = λ y ne. refl;
              same = λ x. refl;
              total = refl;
            })
    ]

-- The whole chain, once the blocks before `b`, `b` and the blocks behind it are joined.
pub record MergesLeft (before : List ℕ) (b lo hi : ℕ) (r q : Linked) : Type 0 where
  pub chain : Chain q.size_at lo hi q.chain
  pub others : (a : ℕ) → covers r.size_at before a ≡ 0 → q.size_at a ≡ r.size_at a
  pub same :
      (x : ℕ)
      → covers q.size_at q.chain x
        ≡ covers r.size_at before x + hit r.size_at b x + covers r.size_at r.chain x
  pub total :
      bytes q.size_at q.chain ≡ bytes r.size_at before + r.size_at b + bytes r.size_at r.chain

module _ (b hi : ℕ) (r : Linked) (k : IsBlock r.size_at b)
    (c : Chain r.size_at (suc (b + r.size_at b)) hi r.chain) (top : hi < 2 ^ 63) where
  abbrev s : ℕ → ℕ
  s = r.size_at

  alone : (lo : ℕ) → lo ≤ b → MergesLeft [] b lo hi r (record r { chain = b ∷ r.chain })
  unfolding covers bytes
  alone lo h = record {
    chain = (h, k, c);
    others = λ a e. refl;
    same = λ x. omega arith;
    total = omega arith;
  }

  last :
      (prev lo : ℕ)
      → lo ≤ prev
      → IsBlock s prev
      → prev + s prev ≤ b
      → MergesLeft (prev ∷ []) b lo hi r (merge_left (prev ∷ []) b r)
  unfolding covers bytes merge_left
  last prev lo h kp le =
      let end : b + s b ≤ hi = omega (arith, Chain-le s r.chain (suc (b + s b)) hi c) in
      let next : add64 prev (s prev) ≡ prev + s prev = omega arith in
      let sum : add64 (s prev) (s b) ≡ s prev + s b = omega arith in
      elim (Bool-cases (prev + s prev == b)) [
        | inl meet ↦
            let e : prev + s prev ≡ b = ==→eq _ _ meet in
            let new = update s prev (s prev + s b) in
            let here : new prev ≡ s prev + s b = ground arith in
            let same =
              Chain-agree s new r.chain (suc (b + s b)) hi (λ y lo' hi'. ground (arith, kp.roomy))
                c in
            rw (next, meet, sum)
              (record {
                chain = (
                  h,
                  record {
                    address_aligned = kp.address_aligned;
                    size_aligned = omega (arith, here, kp.size_aligned, k.size_aligned);
                    roomy = omega (arith, here, kp.roomy);
                  },
                  Chain-raise new r.chain (suc (b + s b)) (suc (prev + new prev)) hi same.0
                      (omega (arith, here)),
                );
                others = λ a z. ground (arith, kp.roomy);
                same = λ x. ground (arith, same.1 x);
                total = omega (arith, here, same.2);
              })
        | inr gap ↦
            let e : prev + s prev ≢ b = ==→ne _ _ gap in
            rw (next, gap)
              (record {
                chain = (h, kp, (omega arith, k, c));
                others = λ a z. refl;
                same = λ x. omega arith;
                total = omega arith;
              })
      ]

  pub merge_left-MergesLeft :
      (before : List ℕ) (lo : ℕ)
      → lo ≤ suc b
      → (before ≡ [] → lo ≤ b)
      → Chain s lo b before
      → MergesLeft before b lo hi r (merge_left before b r)
  unfolding covers bytes merge_left
  merge_left-MergesLeft [] lo h h' d = alone lo (h' refl)
  merge_left-MergesLeft (prev ∷ []) lo h h' d = last prev lo d.0 d.1 (omega (arith, d.2))
  merge_left-MergesLeft (a ∷ prev ∷ before) lo h h' d =
      let q =
        merge_left-MergesLeft (prev ∷ before) (suc (a + s a))
          (Chain-le s (prev ∷ before) (suc (a + s a)) b d.2) (λ e. cc) d.2 in
      let clear : covers s (prev ∷ before) a ≡ 0 =
        covers_below s (prev ∷ before) (suc (a + s a)) b a d.2 (omega arith) in
      let here : (merge_left (prev ∷ before) b r).size_at a ≡ s a = q.others a clear in
      record {
        chain = (
          d.0,
          record {
            address_aligned = d.1.address_aligned;
            size_aligned = rw here d.1.size_aligned;
            roomy = rw here d.1.roomy;
          },
          rw here q.chain,
        );
        others = λ y z. q.others y (ground arith);
        same = λ x. ground (arith, here, q.same x);
        total = omega (arith, here, q.total);
      }
