-- ===== src/Cli/Tests.antt =====
-- Runs of the command line of source/cli.c, and a theorem at a concrete input.
use nano_s.Common.{◌≡◌, refl, List, [], ◌∷◌, ℕ, arith}
use nano_s.Ulib.Text.{codes, strtok}
use nano_s.Cli.{move, arguments, command_of}
use nano_s.Cli.Arguments.{AreWords, no_words, next_word, line_of, arguments-line_of}

abbrev words : List (List ℕ)
words = codes "move" ∷ codes "a" ∷ codes "b.c" ∷ []

line_lem : line_of words ≡ codes "move a b.c"
unfolding line_of
line_lem = refl

command_of_lem : command_of (arguments (codes "  move   a b ")) ≡ move
unfolding command_of arguments strtok
command_of_lem = refl

-- A sixth word is dropped.
six_lem : arguments (codes "p 1 2 3 4 5") ≡ arguments (codes "p 1 2 3 4")
unfolding arguments strtok
six_lem = refl

words-AreWords : AreWords words
words-AreWords =
    next_word b'm' (codes "ove") _
      (
        omega arith,
        omega arith,
        (omega arith, omega arith, (omega arith, omega arith, (omega arith, omega arith, tt))),
      )
      (next_word b'a' [] _ (omega arith, omega arith, tt)
        (next_word b'b' (codes ".c") _
          (omega arith, omega arith, (omega arith, omega arith, (omega arith, omega arith, tt)))
          no_words))

arguments-line_of_example : arguments (line_of words) ≡ words
arguments-line_of_example = arguments-line_of words words-AreWords (omega arith)
