-- ===== src/Members/Memory.antt =====
-- The bytes that a member lies in, as the processor reads and writes them: the lowest byte first.
use reapi.Prelude.{ℕ, zero, suc, ◌+◌, ◌*◌, ◌/◌, ◌%◌, List, [], ◌∷◌, ◌==◌, if◌then◌else◌}

abbrev pub Memory : Type 0
Memory = ℕ → ℕ

unfoldable pub write : ℕ → ℕ → Memory → Memory
write a b m a' = if a' == a then b else m a'

-- A number of so many bytes, at an address.
unfoldable pub load : ℕ → Memory → ℕ → ℕ
load zero m a = 0
load (suc n) m a = m a + 256 * load n m (suc a)

unfoldable pub store : ℕ → ℕ → ℕ → Memory → Memory
unfolding write
store zero v a m = m
store (suc n) v a m = store n (v / 256) (suc a) (write a (v % 256) m)

-- Words one behind the other.
unfoldable pub load_words : ℕ → Memory → ℕ → List ℕ
unfolding load
load_words zero m a = []
load_words (suc n) m a = load 4 m a ∷ load_words n m (a + 4)

unfoldable pub store_words : List ℕ → ℕ → Memory → Memory
unfolding store
store_words [] a m = m
store_words (w ∷ ws) a m = store_words ws (a + 4) (store 4 w a m)

-- strncpy: so many characters, zeros behind the end of the text.
unfoldable pub copy_text : ℕ → List ℕ → ℕ → Memory → Memory
unfolding write
copy_text zero s a m = m
copy_text (suc n) [] a m = copy_text n [] (suc a) (write a 0 m)
copy_text (suc n) (c ∷ s) a m = copy_text n s (suc a) (write a (c % 256) m)

-- The characters from an address to the next zero, and so many at most.
unfoldable pub read_text : ℕ → Memory → ℕ → List ℕ
read_text zero m a = []
read_text (suc n) m a = if m a == 0 then [] else m a ∷ read_text n m (suc a)
