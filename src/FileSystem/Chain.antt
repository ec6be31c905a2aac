-- ===== src/FileSystem/Chain.antt =====
-- The block chains of src/filesystem.c: the walks of `fs_delete`, `fs_write` and `fs_read` end.
use fleetos.Base.{
  ℕ, zero, suc, ◌-◌, ◌<◌, ◌≡◌, refl, sym, ◌∙◌, ◌≢◌, List, [], ◌∷◌, ◌++◌, arith, ltb, if◌then◌else◌,
  length, get_or, set, take, min, length-set, get_or-set_ne, get_or-set_self, ℤ, pos, minus_one,
  some, All, replicate, lt→ltb, subst,
}
use fleetos.FileSystem.{FileSystem, free_chain, read_blocks, free_mark, block_size, block_count}

-- From `blk` the FAT leads through the blocks `bs` to the end mark.
abbrev pub Chain : List ℤ → ℤ → List ℕ → Type 0
Chain fat blk [] = blk ≡ minus_one
Chain fat blk (b ∷ bs) = (blk ≡ pos b) × (b < block_count) × Chain fat (get_or fat b minus_one) bs

abbrev pub Distinct : List ℕ → Type 0
Distinct [] = Unit
Distinct (b ∷ bs) = All (λ c. b ≢ c) bs × Distinct bs

-- A write to a block that is not on the chain leaves the chain.
pub Chain-set :
    (fat : List ℤ) (blk : ℤ) (bs : List ℕ) (b : ℕ) (v : ℤ)
    → All (λ c. b ≢ c) bs
    → Chain fat blk bs
    → Chain (set fat b v) blk bs
Chain-set fat blk [] b v apart c = c
Chain-set fat blk (x ∷ bs) b v apart c = (
  c.0,
  c.1,
  subst (λ next. Chain (set fat b v) next bs) (sym (get_or-set_ne fat b x v minus_one apart.0))
      (Chain-set fat (get_or fat x minus_one) bs b v apart.1 c.2),
)

-- The file system with the blocks `bs` freed and zeroed, the first one first.
unfoldable pub release : List ℕ → FileSystem → FileSystem
release [] fs = fs
release (b ∷ bs) fs =
    release bs (record fs {
      fat = set fs.fat b free_mark;
      blocks = set fs.blocks b (replicate block_size 0);
    })

-- Enough fuel for a chain: the walk of `fs_delete` ends, and frees the blocks of the chain.
pub free_chain-release :
    (n : ℕ) (fs : FileSystem) (blk : ℤ) (bs : List ℕ)
    → Chain fs.fat blk bs
    → Distinct bs
    → length bs < n
    → free_chain n fs blk ≡ some (release bs fs)
unfolding free_chain release
free_chain-release zero fs blk bs c d h = absurd (omega arith)
free_chain-release (suc n) fs blk [] c d h = rw c
free_chain-release (suc n) fs blk (b ∷ bs) c d h =
    let freed : FileSystem = record fs {
      fat = set fs.fat b free_mark;
      blocks = set fs.blocks b (replicate block_size 0);
    } in
    rw (c.0, lt→ltb b block_count c.1)
      (free_chain-release n freed (get_or fs.fat b minus_one) bs
        (Chain-set fs.fat (get_or fs.fat b minus_one) bs b free_mark d.0 c.2) d.1 (omega arith))

-- What reading the chain yields: from each block as many bytes as are asked for and left.
unfoldable pub chain_content : FileSystem → List ℕ → (room left : ℕ) → List ℕ
chain_content fs [] room left = []
chain_content fs (b ∷ bs) room left =
    let chunk = min (min room block_size) left in
    if ltb 0 room
    then take chunk (get_or fs.blocks b []) ++ chain_content fs bs (room - chunk) (left - chunk)
    else []

pub read_blocks-Chain :
    (n : ℕ) (fs : FileSystem) (blk : ℤ) (bs : List ℕ) (room left : ℕ)
    → Chain fs.fat blk bs
    → length bs < n
    → read_blocks n fs blk room left ≡ some (chain_content fs bs room left)
unfolding read_blocks chain_content
read_blocks-Chain zero fs blk bs room left c h = absurd (omega arith)
read_blocks-Chain (suc n) fs blk [] room left c h = rw c
read_blocks-Chain (suc n) fs blk (b ∷ bs) room left c h =
    let chunk = min (min room block_size) left in
    rw c.0 (
      ground (
        arith,
        lt→ltb b block_count c.1,
        read_blocks-Chain n fs (get_or fs.fat b minus_one) bs (room - chunk) (left - chunk) c.2,
      ))

pub length-release_fat :
    (bs : List ℕ) (fs : FileSystem) → length (release bs fs).fat ≡ length fs.fat
unfolding release
length-release_fat [] fs = refl
length-release_fat (b ∷ bs) fs = length-release_fat bs _ ∙ length-set fs.fat b free_mark

-- Blocks off the chain keep their link.
pub release_keeps :
    (bs : List ℕ) (fs : FileSystem) (c : ℕ)
    → All (λ b. b ≢ c) bs
    → get_or (release bs fs).fat c minus_one ≡ get_or fs.fat c minus_one
unfolding release
release_keeps [] fs c h = refl
release_keeps (b ∷ bs) fs c h =
    release_keeps bs _ c h.1 ∙ get_or-set_ne fs.fat b c free_mark minus_one h.0

All-flip : (c : ℕ) (bs : List ℕ) → All (λ b. c ≢ b) bs → All (λ b. b ≢ c) bs
All-flip c [] h = tt
All-flip c (b ∷ bs) h = ((λ e. h.0 (sym e)), All-flip c bs h.1)

-- Blocks of the chain are free afterwards.
pub release_frees :
    (bs : List ℕ) (fs : FileSystem)
    → All (λ b. b < length fs.fat) bs
    → Distinct bs
    → All (λ b. get_or (release bs fs).fat b minus_one ≡ free_mark) bs
unfolding release
release_frees [] fs within d = tt
release_frees (b ∷ bs) fs within d = (
  release_keeps bs _ b (All-flip b bs d.0) ∙ get_or-set_self fs.fat b free_mark minus_one within.0,
  release_frees bs _ (within_set bs fs.fat b within.1) d.1,
)
  where
    within_set :
        (cs : List ℕ) (fat : List ℤ) (b : ℕ)
        → All (λ c. c < length fat) cs
        → All (λ c. c < length (set fat b free_mark)) cs
    within_set [] fat b h = tt
    within_set (c ∷ cs) fat b h =
        (omega (arith, h.0, length-set fat b free_mark), within_set cs fat b h.1)

pub Chain-within :
    (fat : List ℤ) (blk : ℤ) (bs : List ℕ) → Chain fat blk bs → All (λ b. b < block_count) bs
Chain-within fat blk [] c = tt
Chain-within fat blk (b ∷ bs) c = (c.1, Chain-within fat (get_or fat b minus_one) bs c.2)
