-- ===== src/Libufs/Cgroup/Search.antt =====
-- The loops of `cgballoc` and `cgialloc` of libufs/cgroup.c that look for a free block and inode.
use ufson_mac_os.Base.{
  ℕ, zero, suc, ◌+◌, ◌<◌, Bool, true, false, Option, none, some, List, Bool-cases,
}
use ufson_mac_os.Base.{◌≡◌, sym, subst, arith, inl, inr, ◌==◌}
use ufson_mac_os.Ffs.Block.{isblock}
use ufson_mac_os.Libufs.Cgroup.{first_block, first_inode, isclr}

-- `i` is the first number below `n` that `p` holds of.
pub record IsFirst (p : ℕ → Bool) (n i : ℕ) : Type 0 where
  pub below : i < n
  pub holds : p i ≡ true
  pub before : (j : ℕ) → j < i → p j ≡ false

-- What a search below `n` gives.
abbrev pub Finds : (ℕ → Bool) → ℕ → Option ℕ → Type 0
Finds p n none = (j : ℕ) → j < n → p j ≡ false
Finds p n (some i) = IsFirst p n i

-- One more number is passed over.
pub pass :
    (p : ℕ → Bool) (i : ℕ)
    → ((j : ℕ) → j < i → p j ≡ false)
    → p i ≡ false
    → (j : ℕ) → j < i + 1
    → p j ≡ false
pass p i h miss j lt = elim (Bool-cases (j == i)) [
  | inl e ↦ let at : j ≡ i = ground arith in subst (λ k. p k ≡ false) (sym at) miss
  | inr e ↦ h j (ground arith)
]

pub first_block-Finds :
    (frag : ℕ) (map : List ℕ) (n left i : ℕ)
    → i + left ≡ n
    → ((j : ℕ) → j < i → isblock frag map j ≡ false)
    → Finds (isblock frag map) n (first_block frag map left i)
unfolding first_block
first_block-Finds frag map n zero i e h = λ j lt. h j (omega arith)
first_block-Finds frag map n (suc left) i e h = elim (Bool-cases (isblock frag map i)) [
  | inl t ↦ rw (t, first_block) (record { below = omega arith; holds = t; before = h })
  | inr f ↦
      rw (f, first_block)
        (first_block-Finds frag map n left (i + 1) (omega arith) (pass (isblock frag map) i h f))
]

pub first_inode-Finds :
    (map : List ℕ) (n left i : ℕ)
    → i + left ≡ n
    → ((j : ℕ) → j < i → isclr map j ≡ false)
    → Finds (isclr map) n (first_inode map left i)
unfolding first_inode
first_inode-Finds map n zero i e h = λ j lt. h j (omega arith)
first_inode-Finds map n (suc left) i e h = elim (Bool-cases (isclr map i)) [
  | inl t ↦ rw (t, first_inode) (record { below = omega arith; holds = t; before = h })
  | inr f ↦
      rw (f, first_inode)
        (first_inode-Finds map n left (i + 1) (omega arith) (pass (isclr map) i h f))
]
