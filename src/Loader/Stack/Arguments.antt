-- ===== src/Loader/Stack/Arguments.antt =====
-- pintos/src/userprog/process.c: the stack that a process starts with, after setup_stack.
use ospersonal.Common.{
  List, [], ap, arith, false, inl, inr, length, length-append, ltb, refl, some, subst, sym, true, ℕ,
  ◌%◌, ◌*◌, ◌++◌, ◌+◌, ◌-◌, ◌<◌, ◌^◌, ◌∙◌, ◌∷◌, ◌≡◌, ◌≤◌,
}
use ospersonal.Loader.{sub32}
use ospersonal.Loader.Stack.Words.{AllWords, line, tokens-line}
use ospersonal.Loader.Stack.{
  ByteMemory, store_word, load_word, Pushed, push_strings, push_words, push_arguments, setup_stack,
}
use ospersonal.Loader.Stack.Layout.{
  HasStrings, HasWords, AgreeFrom, HasStrings-agree, HasWords-agree, load_word-agree,
  load_word-store_word, store_word-kept,
}
use ospersonal.Loader.Stack.Pushes.{
  StringsPushed, Words-append_zero, WordsPushed, push_strings-StringsPushed, push_words-WordsPushed,
  room,
}

pub record Started (m : ByteMemory) (ts : List (List ℕ)) (r : ByteMemory × ℕ) : Type 0 where
  pub locations : List ℕ
  pub aligned : (r.1 + 4) % 16 ≡ 0
  pub inside : 0xbffff000 ≤ r.1
  pub argc : load_word r.0 (r.1 + 4) ≡ length ts
  pub argv : load_word r.0 (r.1 + 8) ≡ r.1 + 12
  pub pointers : HasWords r.0 (r.1 + 12) (locations ++ 0 ∷ [])
  pub strings : HasStrings r.0 locations ts
  pub kept : (a : ℕ) → 0xc0000000 ≤ a → r.0 a ≡ m a
  pub under : (a : ℕ) → a < r.1 + 4 → r.0 a ≡ m a

-- Two words pushed below `esp`.
module _ (m : ByteMemory) (esp v w : ℕ) (room : 8 ≤ esp) where
  abbrev two_words : ByteMemory
  two_words = store_word (store_word m (esp - 4) v) (esp - 4 - 4) w

  two_words-kept : AgreeFrom esp m two_words
  two_words-kept a le =
      store_word-kept (store_word m (esp - 4) v) (esp - 4 - 4) w a (inr (omega arith))
      ∙ store_word-kept m (esp - 4) v a (inr (omega arith))

  two_words-under : (a : ℕ) → a < esp - 4 - 4 → two_words a ≡ m a
  two_words-under a lt =
      store_word-kept (store_word m (esp - 4) v) (esp - 4 - 4) w a (inl lt)
      ∙ store_word-kept m (esp - 4) v a (inl (omega arith))

  two_words-lower : w < 2 ^ 32 → load_word two_words (esp - 4 - 4) ≡ w
  two_words-lower small = load_word-store_word (store_word m (esp - 4) v) (esp - 4 - 4) w small

  two_words-upper : v < 2 ^ 32 → load_word two_words (esp - 4) ≡ v
  two_words-upper small =
      load_word-agree (store_word m (esp - 4) v) two_words (esp - 4) (esp - 4)
        (λ a le. store_word-kept (store_word m (esp - 4) v) (esp - 4 - 4) w a (inr (omega arith)))
        (omega arith)
      ∙ load_word-store_word m (esp - 4) v small

-- argv, argc and a return address below the pointers.
module _ (m : ByteMemory) (ts : List (List ℕ)) (p : Pushed) (m1 : ByteMemory) (e1 : ℕ)
    (v : StringsPushed m 0xc0000000 ts p) (low : 0xbffff00c ≤ e1)
    (high : e1 + 4 * (length ts + 1) ≤ p.esp) (align : (e1 - 8) % 16 ≡ 0)
    (stored : HasWords m1 e1 (p.locations ++ 0 ∷ [])) (kept : AgreeFrom p.esp p.memory m1)
    (under : (a : ℕ) → a < e1 → m1 a ≡ p.memory a) where
  finish : Started m ts (
    store_word (store_word m1 (e1 - 4) (e1 - 4 + 4)) (e1 - 4 - 4) (length p.locations),
    e1 - 4 - 4 - 4,
  )
  finish =
      let v_up = e1 - 4 + 4 in
      let argc = length p.locations in
      let m2 = two_words m1 e1 v_up argc (omega arith) in
      let room : 8 ≤ e1 = omega arith in
      let same = two_words-kept m1 e1 v_up argc room in
      let n = v.count in
      let d = v.down in
      let at_argc : e1 - 4 - 4 - 4 + 4 ≡ e1 - 4 - 4 = omega arith in
      let at_argv : e1 - 4 - 4 - 4 + 8 ≡ e1 - 4 = omega arith in
      let back : e1 - 4 - 4 - 4 + 12 ≡ e1 = omega arith in
      let up : e1 - 4 + 4 ≡ e1 = omega arith in
      record {
        locations = p.locations;
        aligned = omega arith;
        inside = omega arith;
        argc =
            ap (load_word m2) at_argc
            ∙ two_words-lower m1 e1 v_up argc room (omega (arith, n, d, high))
            ∙ n;
        argv =
            ap (load_word m2) at_argv
            ∙ two_words-upper m1 e1 v_up argc room (omega (arith, d, high))
            ∙ up
            ∙ sym back;
        pointers =
            subst (λ (a : ℕ). HasWords m2 a (p.locations ++ 0 ∷ [])) (sym back)
              (HasWords-agree (p.locations ++ 0 ∷ []) m1 m2 e1 e1 same (omega arith) stored);
        strings =
            HasStrings-agree p.locations ts p.memory m2 p.esp
              (λ a le. same a (omega (arith, high)) ∙ kept a le) v.within v.strings;
        kept = λ a le. same a (omega (arith, high, d)) ∙ kept a (omega (arith, d)) ∙ v.kept a le;
        under = λ a lt.
            two_words-under m1 e1 v_up argc room a (omega arith)
            ∙ under a (omega arith)
            ∙ v.under a (omega (arith, high));
      }

module _ (m : ByteMemory) (ts : List (List ℕ)) (p : Pushed) (v : StringsPushed m 0xc0000000 ts p)
    (few : length ts ≤ 100) (fits : room ts + 4 * length ts + 31 ≤ 4096) where
  abbrev start : ℕ
  start = p.esp - sub32 p.esp ((length p.locations + 3) * 4) % 16

  start_lem : (start ≤ p.esp) × (p.esp ≤ start + 15) × ((start - 4 * (length ts + 3)) % 16 ≡ 0)
  start_lem = let n = v.count in let d = v.down in rw n (omega (arith, d))

  abbrev pointers : List ℕ
  pointers = p.locations ++ 0 ∷ []

  pushed : WordsPushed p.memory start pointers (push_words p.memory start pointers)
  pushed =
      let s = start_lem in
      push_words-WordsPushed pointers p.memory start
        (omega (arith, s, v.down, v.count, length-append p.locations (0 ∷ [])))
        (Words-append_zero p.locations v.words)

  push_arguments-Started : Started m ts (push_arguments p)
  unfolding push_arguments
  push_arguments-Started =
      let s = start_lem in
      let n = v.count in
      let d = v.down in
      let w = pushed in
      let (m1, e1) = push_words p.memory start pointers in
      let e1_lem : e1 + 4 * (length ts + 1) ≡ start =
        omega (arith, w.down, n, length-append p.locations (0 ∷ [])) in
      finish m ts p m1 e1 v (omega (arith, e1_lem, s, d)) (omega (arith, e1_lem, s))
        (omega (arith, e1_lem, s)) w.stored (λ a le. w.kept a (omega (arith, s)))
        (λ a lt. w.under a lt)

-- A process that is started with a line of words, each of one byte or more and none with a space in
-- it, a space between each two, at most 100 of them and 4096 bytes of stack in all with the pointers:
-- when the kernel has a page for the stack, `setup_stack` succeeds, and from the stack pointer on the
-- process finds, above the place of a return address, the number of the words, a pointer to `argv`,
-- and there a pointer to each word in its order with its NUL, and a last pointer of 0. The arguments
-- start at a multiple of 16, all is within the page below PHYS_BASE, and the memory from PHYS_BASE on
-- and below the arguments is as it was.
pub setup_stack-Started :
    (m : ByteMemory) (ws : List (List ℕ))
    → AllWords ws
    → length ws ≤ 100
    → room ws + 4 * length ws + 31 ≤ 4096
    → (r : ByteMemory × ℕ) × (setup_stack true true m (line ws) ≡ some (some r)) × Started m ws r
unfolding setup_stack
setup_stack-Started m ws all few fits =
    let v = push_strings-StringsPushed ws m 0xc0000000 (omega arith) (omega arith) in
    let p = push_strings m 0xc0000000 ws in
    let within : ltb 100 (length p.locations) ≡ false = ground (arith, v.count) in
    (
      push_arguments p,
      rw (tokens-line ws all, within) refl,
      push_arguments-Started m ws p v few fits,
    )
