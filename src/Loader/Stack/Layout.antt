-- ===== src/Loader/Stack/Layout.antt =====
-- pintos/src/userprog/process.c: what setup_stack leaves for the process to find.
use ospersonal.Common.{
  List, [], arith, false, length, refl, suc, true, ℕ, ◌+◌, ◌<◌, ◌==◌, ◌^◌, ◌∙◌, ◌∷◌, ◌≡◌, ◌≢◌, ◌≤◌,
  ◌⊎◌,
}
use ospersonal.Loader.Stack.{ByteMemory, store, store_string, store_word, load_word}

-- A string with its NUL, strings at given addresses, and words one after the other.
abbrev pub HasString : ByteMemory → ℕ → List ℕ → Type 0
HasString m a [] = m a ≡ 0
HasString m a (c ∷ s) = (m a ≡ c) × HasString m (suc a) s

abbrev pub HasStrings : ByteMemory → List ℕ → List (List ℕ) → Type 0
HasStrings m [] [] = Unit
HasStrings m (a ∷ places) (s ∷ ss) = HasString m a s × HasStrings m places ss
HasStrings m _ _ = ⊥

abbrev pub HasWords : ByteMemory → ℕ → List ℕ → Type 0
HasWords m a [] = Unit
HasWords m a (w ∷ ws) = (load_word m a ≡ w) × HasWords m (a + 4) ws

-- Two memories agree from an address on.
abbrev pub AgreeFrom : ℕ → ByteMemory → ByteMemory → Type 0
AgreeFrom lo m m' = (a : ℕ) → lo ≤ a → m' a ≡ m a

store-kept : (m : ByteMemory) (a v b : ℕ) → a ≢ b → store m a v b ≡ m b
store-kept m a v b ne = let e : (b == a) ≡ false = ground arith in rw e refl

store-at : (m : ByteMemory) (a v : ℕ) → store m a v a ≡ v
store-at m a v = let e : (a == a) ≡ true = ground arith in rw e refl

pub store_string-below :
    (s : List ℕ) (m : ByteMemory) (a b : ℕ) → b < a → store_string m a s b ≡ m b
unfolding store_string
store_string-below [] m a b h = store-kept m a 0 b (omega arith)
store_string-below (c ∷ s) m a b h =
    store_string-below s (store m a c) (suc a) b (omega arith) ∙ store-kept m a c b (omega arith)

pub store_string-above :
    (s : List ℕ) (m : ByteMemory) (a : ℕ) → AgreeFrom (a + length s + 1) m (store_string m a s)
unfolding store_string
store_string-above [] m a b h = store-kept m a 0 b (omega arith)
store_string-above (c ∷ s) m a b h =
    store_string-above s (store m a c) (suc a) b (omega arith) ∙ store-kept m a c b (omega arith)

pub store_string-HasString :
    (s : List ℕ) (m : ByteMemory) (a : ℕ) → HasString (store_string m a s) a s
unfolding store_string
store_string-HasString [] m a = store-at m a 0
store_string-HasString (c ∷ s) m a = (
  store_string-below s (store m a c) (suc a) a (omega arith) ∙ store-at m a c,
  store_string-HasString s (store m a c) (suc a),
)

pub store_word-kept :
    (m : ByteMemory) (a w b : ℕ) → (b < a) ⊎ (a + 4 ≤ b) → store_word m a w b ≡ m b
unfolding store_word
store_word-kept m a w b h = ground arith

pub load_word-store_word :
    (m : ByteMemory) (a w : ℕ) → w < 2 ^ 32 → load_word (store_word m a w) a ≡ w
unfolding store_word load_word
load_word-store_word m a w h = ground arith

pub load_word-agree :
    (m m' : ByteMemory) (lo a : ℕ) → AgreeFrom lo m m' → lo ≤ a → load_word m' a ≡ load_word m a
unfolding load_word
load_word-agree m m' lo a same h =
    let a0 = same a h in
    let a1 = same (a + 1) (omega arith) in
    let a2 = same (a + 2) (omega arith) in
    let a3 = same (a + 3) (omega arith) in rw (a0, a1, a2, a3) refl

pub HasString-agree :
    (s : List ℕ) (m m' : ByteMemory) (lo a : ℕ)
    → AgreeFrom lo m m'
    → lo ≤ a
    → HasString m a s
    → HasString m' a s
HasString-agree [] m m' lo a same h has = same a h ∙ has
HasString-agree (c ∷ s) m m' lo a same h has =
    (same a h ∙ has.0, HasString-agree s m m' lo (suc a) same (omega arith) has.1)

pub HasWords-agree :
    (ws : List ℕ) (m m' : ByteMemory) (lo a : ℕ)
    → AgreeFrom lo m m'
    → lo ≤ a
    → HasWords m a ws
    → HasWords m' a ws
HasWords-agree [] m m' lo a same h has = tt
HasWords-agree (w ∷ ws) m m' lo a same h has = (
  load_word-agree m m' lo a same h ∙ has.0,
  HasWords-agree ws m m' lo (a + 4) same (omega arith) has.1,
)

abbrev pub AllFrom : ℕ → List ℕ → Type 0
AllFrom lo [] = Unit
AllFrom lo (a ∷ places) = (lo ≤ a) × AllFrom lo places

pub HasStrings-agree :
    (places : List ℕ) (ss : List (List ℕ)) (m m' : ByteMemory) (lo : ℕ)
    → AgreeFrom lo m m'
    → AllFrom lo places
    → HasStrings m places ss
    → HasStrings m' places ss
HasStrings-agree [] [] m m' lo same h has = tt
HasStrings-agree [] (s ∷ ss) m m' lo same h has = has
HasStrings-agree (a ∷ places) [] m m' lo same h has = has
HasStrings-agree (a ∷ places) (s ∷ ss) m m' lo same h has =
    (HasString-agree s m m' lo a same h.0 has.0, HasStrings-agree places ss m m' lo same h.1 has.1)
