-- ===== src/Ulib/Tests.antt =====
-- Runs of the functions of source/ulib/ulib.c, and the theorems at concrete inputs.
use nano_s.Common.{[], ◌∷◌, ℕ, ◌≡◌, ◌↔◌, refl, List, ◌++◌, length, some, arith}
use nano_s.Ulib.Text.{codes, cstr, strcmp, strtok, stou, strchr}
use nano_s.Ulib.Text.Compare.{AreBytes, strcmp-same}
use nano_s.Ulib.Text.Tokens.{IsSplit, strtok-IsSplit}
use nano_s.Ulib.Format.{number, text, plain, format_from, str_to_ip, ip_to_str}
use nano_s.Ulib.Format.Decimal.{stou-format_from}
use nano_s.Ulib.Memory.{Memory, memcpy}
use nano_s.Ulib.Getstr.{Output, getstr}
use nano_s.Ulib.Getstr.Keys.{edits, Keeps}
use nano_s.Ulib.Getstr.Refine.{AreTyped, no_more, then_key, empty_line, getstr-edits}
use nano_s.Ulib.Memory.Overlap.{Copied, memcpy-Copied}

stou_lem : stou (codes "0xff") ≡ 255
unfolding stou
stou_lem = refl

strchr_lem : strchr (codes "a/b") 47 ≡ 2
unfolding strchr
strchr_lem = refl

abc-AreBytes : AreBytes (codes "abc")
abc-AreBytes = (omega arith, (omega arith, (omega arith, tt)))

strcmp-same_example :
    (strcmp (codes "abc") (codes "abc") ≡ 0) ↔ (cstr (codes "abc") ≡ cstr (codes "abc"))
strcmp-same_example = strcmp-same (codes "abc") (codes "abc") abc-AreBytes abc-AreBytes

strtok-IsSplit_example : IsSplit 47 (cstr (codes "//fd0/a/b")) (strtok 47 (codes "//fd0/a/b"))
strtok-IsSplit_example = strtok-IsSplit 47 (codes "//fd0/a/b") (omega arith)

-- A copy of four bytes to a place two bytes further on.
abbrev counting : Memory
counting a = a

memcpy-Copied_example :
    ((memcpy 12 10 4 counting).0 ≡ 4) × Copied 12 10 0 4 (memcpy 12 10 4 counting).1 counting
memcpy-Copied_example = memcpy-Copied 12 10 4 counting

stou-format_from_example :
    stou (format_from plain (codes "%u") (number 4294967295 ∷ []) 0) ≡ 4294967295
stou-format_from_example = stou-format_from 4294967295 (omega arith)

format_lem :
    format_from plain (codes "a%3u %d%s") (number 7 ∷ number 4294967295 ∷ text (codes "b") ∷ []) 0
    ≡ codes "a007 -1b"
unfolding format_from
format_lem = refl

-- An address is printed and read back.
ip_lem : str_to_ip (ip_to_str 192 168 2 15) ≡ 192 ∷ 168 ∷ 2 ∷ 15 ∷ []
unfolding str_to_ip ip_to_str
ip_lem = refl

-- A buffer of 6 bytes: two characters, Left, a third one, Backspace at its place, End and a fourth.
abbrev keys : List ℕ
keys = 0x61 ∷ 0x62 ∷ 0xE8 ∷ 0x63 ∷ 0x08 ∷ 0xE1 ∷ 0x64 ∷ []

edits_lem : (edits 6 keys empty_line).text ≡ codes "abd"
unfolding edits
edits_lem = refl

keys_typed : AreTyped keys
keys_typed = then_key 0x61 _ (omega arith) (
    then_key 0x62 _ (omega arith) (
      then_key 0xE8 _ (omega arith) (
        then_key 0x63 _ (omega arith) (
          then_key 0x08 _ (omega arith)
            (then_key 0xE1 _ (omega arith) (then_key 0x64 _ (omega arith) no_more))))))

getstr-edits_example :
    (m : Memory) × (out : List Output) × (getstr 10 6 3 5 (keys ++ (0x0D ∷ [])) counting
      ≡ some (m, out, length (edits 6 keys empty_line).text))
    × Keeps 10 6 counting m (edits 6 keys empty_line)
getstr-edits_example = getstr-edits 10 6 counting 3 5 keys [] (omega arith) keys_typed
