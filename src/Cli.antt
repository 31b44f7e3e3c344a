-- ===== src/Cli.antt =====
-- The command line of source/cli.c: the arguments of a line, and the commands that change files.
pub mod Arguments
mod Tests
use nano_s.Common.{
  take, ◌++◌, ◌+◌, ℕ, Bool, zero, suc, ◌-◌, ◌==◌, leb, if◌then◌else◌, List, [], ◌∷◌, length, Option,
  none, some,
}
use Prim.Native.String.{String}
use nano_s.Ulib.Text.{codes, strtok, strcmp}
use nano_s.Fs.Types.{System, error_not_found, error_exists, error_no_space}
use nano_s.Fs.Monad.{M, attempt, stuck, ◌>>=◌, Res, ok, err, spin, pure}
use nano_s.Fs.File.{fs_read_file}
use nano_s.Fs.Dir.{fs_create_directory, fs_delete}
use nano_s.Fs.Copy.{fs_copy, fs_move}

abbrev pub cli_max_arg : ℕ
cli_max_arg = 5

-- The loop over the tokens, with room for `left` arguments.
unfoldable pub tokenize : (fuel left : ℕ) → List ℕ → List (List ℕ)
tokenize zero left s = []
tokenize (suc fuel) zero s = []
tokenize (suc fuel) (suc left) [] = []
tokenize (suc fuel) (suc left) (c ∷ s) =
    let t = strtok 0x20 (c ∷ s) in
    let kept = tokenize fuel left t.rest in
    let skipped = tokenize fuel (suc left) t.rest in
    if c == 0 then [] else if length t.token == 0 then skipped else t.token ∷ kept

-- Each round leaves a shorter line, so its length is enough.
unfoldable pub arguments : List ℕ → List (List ℕ)
unfolding tokenize
arguments line = tokenize (suc (length line)) cli_max_arg line

-- What a command prints by the value that the file system returned; `other` is the last message.
abbrev message : (other : List ℕ) → ℕ → List ℕ
message other code =
    if code == error_not_found
    then codes "error: path not found\n"
    else if code == error_exists
    then codes "error: destination already exists\n"
    else if code == error_no_space
    then codes "error: can't allocate destination in filesystem\n"
    else other

-- The value is compared with ERROR_ANY: `err` is a code from there on.
abbrev reported : (ℕ → List ℕ) → Res ℕ × System → Res (List ℕ) × System
reported on_error (ok a, s) = (ok [], s)
reported on_error (err code, s) = (ok (on_error code), s)
reported on_error (spin, s) = (spin, s)

abbrev report : (ℕ → List ℕ) → M ℕ → M (List ℕ)
report on_error m s = reported on_error (m s)

-- The arguments behind the name of the command; with a wrong number of them the usage is printed.
unfoldable pub cli_makedir : (fuel : ℕ) → List (List ℕ) → M (List ℕ)
unfolding fs_create_directory
cli_makedir fuel (path ∷ []) =
    report (message (codes "error: coludn't create directory\n")) (fs_create_directory fuel path)
cli_makedir fuel argv = pure (codes "usage: makedir <path>\n")

unfoldable pub cli_delete : (fuel depth : ℕ) → List (List ℕ) → M (List ℕ)
unfolding fs_delete
cli_delete fuel depth (path ∷ []) =
    report (λ code. codes "error: failed to delete\n") (fs_delete fuel depth path)
cli_delete fuel depth argv = pure (codes "usage: delete <path>\n")

unfoldable pub cli_move : (fuel depth : ℕ) → List (List ℕ) → M (List ℕ)
unfolding fs_move
cli_move fuel depth (path ∷ new ∷ []) =
    report (message (codes "error: coludn't move files\n")) (fs_move fuel depth path new)
cli_move fuel depth argv = pure (codes "usage: move <path> <newpath>\n")

unfoldable pub cli_copy : (fuel depth : ℕ) → List (List ℕ) → M (List ℕ)
unfolding fs_copy
cli_copy fuel depth (src ∷ dst ∷ []) =
    report (message (codes "error: coludn't copy files\n")) (fs_copy fuel depth src dst)
cli_copy fuel depth argv = pure (codes "usage: copy <srcpath> <dstpath>\n")

pub data Command : Type 0 where
  empty_line cls shutdown list makedir delete move copy info clone read time config help extern :
      Command

unfoldable is_name : List ℕ → String → Bool
unfolding strcmp
is_name arg name = strcmp arg (codes name) == 0

-- The chain of `else if` of execute, by the first argument.
unfoldable pub command_of : List (List ℕ) → Command
unfolding is_name
command_of [] = empty_line
command_of (name ∷ argv) =
    if is_name name "cls"
    then cls
    else if is_name name "shutdown"
    then shutdown
    else if is_name name "list"
    then list
    else if is_name name "makedir"
    then makedir
    else if is_name name "delete"
    then delete
    else if is_name name "move"
    then move
    else if is_name name "copy"
    then copy
    else if is_name name "info"
    then info
    else if is_name name "clone"
    then clone
    else if is_name name "read"
    then read
    else if is_name name "time"
    then time
    else if is_name name "config"
    then config
    else if is_name name "help"
    then help
    else extern

abbrev behind : List (List ℕ) → List (List ℕ)
behind [] = []
behind (name ∷ argv) = argv

-- execute, for the commands that change files; `others` does the rest.
unfoldable pub execute :
    (fuel depth : ℕ) → (others : Command → List (List ℕ) → M (List ℕ)) → List ℕ → M (List ℕ)
unfolding arguments command_of cli_makedir cli_delete cli_move cli_copy
execute fuel depth others line =
    let argv = arguments line in
    elim (command_of argv) [
      | empty_line ↦ pure []
      | makedir ↦ cli_makedir fuel (behind argv)
      | delete ↦ cli_delete fuel depth (behind argv)
      | move ↦ cli_move fuel depth (behind argv)
      | copy ↦ cli_copy fuel depth (behind argv)
      | other ↦ others other argv
    ]

-- The position of the first newline.
unfoldable pub line_end : List ℕ → Option ℕ
line_end [] = none
line_end (c ∷ s) =
    let rest = line_end s in
    if c == 0x0A then some 0 else elim rest [ none ↦ none | some i ↦ some (suc i) ]

-- A script is read in pieces of 72 bytes, and ends at a line that has no newline within them.
unfoldable pub cli_exec_file :
    (fuel depth : ℕ)
    → (others : Command → List (List ℕ) → M (List ℕ)) → (rounds : ℕ) → (path : List ℕ)
    → (offset : ℕ) → M (List ℕ)
unfolding fs_read_file line_end execute
cli_exec_file fuel depth others zero path offset = stuck
cli_exec_file fuel depth others (suc rounds) path offset = do
  found ← attempt (fs_read_file path offset 72)
  elim found [
    | none ↦ pure []
    | some line ↦ elim (line_end line) [
      | none ↦ pure []
      | some i ↦ do
        out ← execute fuel depth others (take i line)
        more ← cli_exec_file fuel depth others rounds path (offset + (i + 1))
        pure (out ++ more)
    ]
  ]
