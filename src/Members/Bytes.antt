-- ===== src/Members/Bytes.antt =====
-- What is read of the bytes after a write.
use reapi.Members.Memory.{Memory, copy_text, load, read_text, store, store_words, write}
use reapi.Prelude.{
  ℕ, zero, suc, ◌+◌, ◌*◌, ◌/◌, ◌%◌, ◌≤◌, ◌<◌, ◌≡◌, ◌≢◌, ◌⊎◌, refl, ◌∙◌, inl, List, [], ◌∷◌, length,
  take, All, arith,
}

-- The numbers of so many bytes are below this.
abbrev pub limit : ℕ → ℕ
limit zero = 1
limit (suc n) = 256 * limit n

pub store_apart : (n v a b : ℕ) (m : Memory) → (b < a) ⊎ (a + n ≤ b) → store n v a m b ≡ m b
unfolding store write
store_apart zero v a b m h = refl
store_apart (suc n) v a b m h =
    ground (arith, store_apart n (v / 256) (suc a) b (write a (v % 256) m))

pub load-store : (n v a : ℕ) (m : Memory) → v < limit n → load n (store n v a m) a ≡ v
unfolding store load write
load-store zero v a m h = ground arith
load-store (suc n) v a m h = ground (
  arith,
  store_apart n (v / 256) (suc a) a (write a (v % 256) m),
  load-store n (v / 256) (suc a) (write a (v % 256) m),
)

pub load_same :
    (n a : ℕ) (m m' : Memory)
    → ((i : ℕ) → a ≤ i → i < a + n → m i ≡ m' i)
    → load n m a ≡ load n m' a
unfolding load
load_same zero a m m' h = refl
load_same (suc n) a m m' h =
    ground (arith, h a, load_same n (suc a) m m' (λ i l u. h i (omega arith) (omega arith)))

-- A number that lies apart from the write is read as before.
pub load-store_apart :
    (k n v a b : ℕ) (m : Memory) → (b + k ≤ a) ⊎ (a + n ≤ b) → load k (store n v a m) b ≡ load k m b
load-store_apart k n v a b m h =
    load_same k b (store n v a m) m (λ i l u. ground (arith, store_apart n v a i m))

pub store_words_apart :
    (ws : List ℕ) (a b : ℕ) (m : Memory)
    → (b < a) ⊎ (a + 4 * length ws ≤ b)
    → store_words ws a m b ≡ m b
unfolding store_words
store_words_apart [] a b m h = refl
store_words_apart (w ∷ ws) a b m h =
    ground (arith, store_words_apart ws (a + 4) b (store 4 w a m), store_apart 4 w a b m)

pub copy_text_apart :
    (n : ℕ) (s : List ℕ) (a b : ℕ) (m : Memory) → (b < a) ⊎ (a + n ≤ b) → copy_text n s a m b ≡ m b
unfolding copy_text write
copy_text_apart zero s a b m h = refl
copy_text_apart (suc n) [] a b m h = ground (arith, copy_text_apart n [] (suc a) b (write a 0 m))
copy_text_apart (suc n) (c ∷ s) a b m h =
    ground (arith, copy_text_apart n s (suc a) b (write a (c % 256) m))

pub write_at : (a b c : ℕ) (m : Memory) → a ≡ c → write a b m c ≡ b
unfolding write
write_at a b c m h = ground arith

pub write_apart : (a b c : ℕ) (m : Memory) → a ≢ c → write a b m c ≡ m c
unfolding write
write_apart a b c m h = ground arith

-- The text of characters is read back as far as there was room and as is asked for.
pub read_text-copy_text :
    (n l : ℕ) (s : List ℕ) (a : ℕ) (m : Memory)
    → All (λ c. (0 < c) × (c < 256)) s
    → read_text l (write (a + n) 0 (copy_text n s a m)) a ≡ take l (take n s)
unfolding read_text copy_text
read_text-copy_text n zero s a m h = refl
read_text-copy_text zero (suc l) s a m h =
    let ends = write_at (a + 0) 0 a (copy_text 0 s a m) (omega arith) in ground (arith, ends)
read_text-copy_text (suc n) (suc l) [] a m h =
    let rest = copy_text n [] (suc a) (write a 0 m) in
    let apart = write_apart (a + suc n) 0 a rest (omega arith) in
    let kept = copy_text_apart n [] (suc a) a (write a 0 m) (inl (omega arith)) in
    let ends = write_at a 0 a m refl in ground (arith, apart ∙ kept ∙ ends)
read_text-copy_text (suc n) (suc l) (c ∷ s) a m h =
    let (here, later) = h in
    let m' = write a (c % 256) m in
    let rest = copy_text n s (suc a) m' in
    let apart = write_apart (a + suc n) 0 a rest (omega arith) in
    let kept = copy_text_apart n s (suc a) a m' (inl (omega arith)) in
    let first = write_at a (c % 256) a m refl in
    let shifted : a + suc n ≡ suc a + n = omega arith in
    let others = read_text-copy_text n l s (suc a) m' later in
    ground (arith, apart ∙ kept ∙ first, shifted, others, here.0, here.1)
