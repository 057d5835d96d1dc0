-- ===== src/Loader/Stack/Pushes.antt =====
-- pintos/src/userprog/process.c: the strings and the words that setup_stack pushes.
use ospersonal.Common.{
  List, [], ap, arith, inl, inr, length, refl, suc, ℕ, ◌*◌, ◌++◌, ◌+◌, ◌-◌, ◌<◌, ◌^◌, ◌∙◌, ◌∷◌, ◌≡◌,
  ◌≤◌,
}
use ospersonal.Loader.Stack.{ByteMemory, store_string, store_word, Pushed, push_strings, push_words}
use ospersonal.Loader.Stack.Layout.{
  HasStrings, HasWords, AgreeFrom, AllFrom, store_string-HasString, store_string-below,
  store_string-above, HasString-agree, HasWords-agree, load_word-store_word, store_word-kept,
}

-- The room that the strings take.
abbrev pub room : List (List ℕ) → ℕ
room [] = 0
room (t ∷ ts) = length t + 1 + room ts

abbrev Words : List ℕ → Type 0
Words [] = Unit
Words (w ∷ ws) = (w < 2 ^ 32) × Words ws

pub Words-append_zero : (ws : List ℕ) → Words ws → Words (ws ++ 0 ∷ [])
Words-append_zero [] h = (omega arith, tt)
Words-append_zero (w ∷ ws) h = (h.0, Words-append_zero ws h.1)

AllFrom-le : (lo hi : ℕ) (as' : List ℕ) → lo ≤ hi → AllFrom hi as' → AllFrom lo as'
AllFrom-le lo hi [] le h = tt
AllFrom-le lo hi (a ∷ as') le h = (omega (arith, h.0), AllFrom-le lo hi as' le h.1)

pub record StringsPushed (m : ByteMemory) (esp : ℕ) (ts : List (List ℕ)) (p : Pushed) : Type 0 where
  pub down : p.esp + room ts ≡ esp
  pub count : length p.locations ≡ length ts
  pub strings : HasStrings p.memory p.locations ts
  pub within : AllFrom p.esp p.locations
  pub words : Words p.locations
  pub kept : AgreeFrom esp m p.memory
  pub under : (a : ℕ) → a < p.esp → p.memory a ≡ m a

pub push_strings-StringsPushed :
    (ts : List (List ℕ)) (m : ByteMemory) (esp : ℕ)
    → room ts ≤ esp
    → esp < 2 ^ 32
    → StringsPushed m esp ts (push_strings m esp ts)
unfolding push_strings
push_strings-StringsPushed [] m esp h small = record {
  down = omega arith;
  count = refl;
  strings = tt;
  within = tt;
  words = tt;
  kept = λ a le. refl;
  under = λ a lt. refl;
}
push_strings-StringsPushed (t ∷ ts) m esp h small =
    let at = esp - (length t + 1) in
    let m' = store_string m at t in
    let later = push_strings-StringsPushed ts m' at (omega arith) (omega arith) in
    let p = push_strings m' at ts in
    record {
      down = omega (arith, later.down);
      count = ap suc later.count;
      strings = (
        HasString-agree t m' p.memory at at later.kept (omega arith)
            (store_string-HasString t m at),
        later.strings,
      );
      within = (omega (arith, later.down), later.within);
      words = (omega arith, later.words);
      kept = λ a le. later.kept a (omega arith) ∙ store_string-above t m at a (omega arith);
      under = λ a lt. later.under a lt ∙ store_string-below t m at a (omega (arith, later.down));
    }

pub record WordsPushed (m : ByteMemory) (esp : ℕ) (ws : List ℕ) (r : ByteMemory × ℕ) : Type 0 where
  pub down : r.1 + 4 * length ws ≡ esp
  pub stored : HasWords r.0 r.1 ws
  pub kept : AgreeFrom esp m r.0
  pub under : (a : ℕ) → a < r.1 → r.0 a ≡ m a

pub push_words-WordsPushed :
    (ws : List ℕ) (m : ByteMemory) (esp : ℕ)
    → 4 * length ws ≤ esp
    → Words ws
    → WordsPushed m esp ws (push_words m esp ws)
unfolding push_words
push_words-WordsPushed [] m esp h words = record {
  down = omega arith;
  stored = tt;
  kept = λ a le. refl;
  under = λ a lt. refl;
}
push_words-WordsPushed (w ∷ ws) m esp h words =
    let later = push_words-WordsPushed ws m esp (omega arith) words.1 in
    let (m', esp') = push_words m esp ws in
    let back : esp' - 4 + 4 ≡ esp' = omega (arith, later.down) in
    record {
      down = omega (arith, later.down);
      stored = (
        load_word-store_word m' (esp' - 4) w words.0,
        rw back (
            HasWords-agree ws m' (store_word m' (esp' - 4) w) esp' esp'
              (λ a le. store_word-kept m' (esp' - 4) w a (inr (omega (arith, later.down))))
              (omega arith) later.stored),
      );
      kept = λ a le.
          store_word-kept m' (esp' - 4) w a (inr (omega (arith, later.down))) ∙ later.kept a le;
      under = λ a lt.
          store_word-kept m' (esp' - 4) w a (inl lt) ∙ later.under a (omega (arith, later.down));
    }

-- The stack of a process that was given the words `ts`: what `main` reads as argc and argv.
