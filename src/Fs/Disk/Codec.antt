-- ===== src/Fs/Disk/Codec.antt =====
-- The bytes of an entry determine it.
use nano_s.Common.{
  ℕ, zero, suc, ◌+◌, ◌*◌, ◌/◌, ◌%◌, ◌<◌, ◌≡◌, refl, ap, ap₂, ◌∙◌, List, [], ◌∷◌, ◌++◌, length, drop,
  arith, length-append,
}
use nano_s.Fs.Types.{Entry, sfs_namesize, sfs_entryrefs, word, entry_size}
use nano_s.Fs.Disk.{le32_all, pad, word_of, words_of, encode_entry, decode_entry}

abbrev pub AllBelow : ℕ → List ℕ → Type 0
AllBelow k [] = Unit {0}
AllBelow k (x ∷ xs) = (x < k) × AllBelow k xs

-- What the struct can hold.
pub record IsRepresentable (e : Entry) : Type 0 where
  pub flags : e.flags < 256
  pub name : length e.name ≡ sfs_namesize
  pub time : e.time < word
  pub size : e.size < word
  pub parent : e.parent < word
  pub next : e.next < word
  pub refs : length e.ref ≡ sfs_entryrefs
  pub ref : AllBelow word e.ref

pub length-pad : (n : ℕ) (xs : List ℕ) → length (pad n xs) ≡ n
unfolding pad
length-pad zero xs = refl
length-pad (suc n) [] = omega (arith, length-pad n [])
length-pad (suc n) (x ∷ xs) = omega (arith, length-pad n xs)

pad_full : (n : ℕ) (xs ys : List ℕ) → length xs ≡ n → pad n (xs ++ ys) ≡ xs
unfolding pad
pad_full zero [] ys e = refl
pad_full zero (x ∷ xs) ys e = absurd (omega arith)
pad_full (suc n) [] ys e = absurd (omega arith)
pad_full (suc n) (x ∷ xs) ys e = ap (◌∷◌ x) (pad_full n xs ys (omega arith))

pub pad_self : (n : ℕ) (xs : List ℕ) → length xs ≡ n → pad n xs ≡ xs
unfolding pad
pad_self zero [] e = refl
pad_self zero (x ∷ xs) e = absurd (omega arith)
pad_self (suc n) [] e = absurd (omega arith)
pad_self (suc n) (x ∷ xs) e = ap (◌∷◌ x) (pad_self n xs (omega arith))

drop-pad : (n k : ℕ) (xs ys : List ℕ) → length xs ≡ n → drop (n + k) (xs ++ ys) ≡ drop k ys
drop-pad n k [] ys e = let z : n + k ≡ k = omega arith in rw z
drop-pad zero k (x ∷ xs) ys e = absurd (omega arith)
drop-pad (suc n) k (x ∷ xs) ys e =
    let z : suc n + k ≡ suc (n + k) = omega arith in rw z (drop-pad n k xs ys (omega arith))

word_of_bytes :
    (w : ℕ)
    → w < word
    → w % 256 + w / 256 % 256 * 256 + w / 65536 % 256 * 65536 + w / 16777216 % 256 * 16777216 ≡ w
word_of_bytes w h = omega arith

words_of-le32_all :
    (n : ℕ) (ws : List ℕ) → length ws ≡ n → AllBelow word ws → words_of n (le32_all ws) ≡ ws
unfolding words_of le32_all
words_of-le32_all zero [] e h = refl
words_of-le32_all zero (w ∷ ws) e h = absurd (omega arith)
words_of-le32_all (suc n) [] e h = absurd (omega arith)
words_of-le32_all (suc n) (w ∷ ws) e h =
    ap₂ ◌∷◌ (word_of_bytes w h.0) (words_of-le32_all n ws (omega arith) h.1)

length-le32_all : (ws : List ℕ) → length (le32_all ws) ≡ 4 * length ws
unfolding le32_all
length-le32_all [] = refl
length-le32_all (w ∷ ws) = omega (arith, length-le32_all ws)

-- An entry takes a whole block.
pub length-encode_entry : (e : Entry) → length (encode_entry e) ≡ entry_size
unfolding encode_entry
length-encode_entry e = omega (
  arith,
  length-append {0} (pad sfs_namesize e.name)
      (le32_all (e.time ∷ e.size ∷ e.parent ∷ e.next ∷ pad sfs_entryrefs e.ref)),
  length-pad sfs_namesize e.name,
  length-le32_all (pad sfs_entryrefs e.ref),
  length-pad sfs_entryrefs e.ref,
)

entry_eq :
    (d e : Entry)
    → d.flags ≡ e.flags
    → d.name ≡ e.name
    → d.time ≡ e.time
    → d.size ≡ e.size
    → d.parent ≡ e.parent
    → d.next ≡ e.next
    → d.ref ≡ e.ref
    → d ≡ e
entry_eq d e a b c f g h k = λ i. record {
  flags = a i;
  name = b i;
  time = c i;
  size = f i;
  parent = g i;
  next = h i;
  ref = k i;
}

-- An entry within the bounds of the struct is decoded from the bytes to which it is encoded.
decode_entry-encode_entry : (e : Entry) → IsRepresentable e → decode_entry (encode_entry e) ≡ e
unfolding decode_entry encode_entry
decode_entry-encode_entry e v =
    rw (pad_self sfs_namesize e.name v.name, pad_self sfs_entryrefs e.ref v.refs)
      (entry_eq _ e (omega (arith, v.flags)) (pad_full sfs_namesize e.name _ v.name)
        (ap word_of (drop-pad 15 0 e.name _ v.name) ∙ word_of_bytes e.time v.time)
        (ap word_of (drop-pad 15 4 e.name _ v.name) ∙ word_of_bytes e.size v.size)
        (ap word_of (drop-pad 15 8 e.name _ v.name) ∙ word_of_bytes e.parent v.parent)
        (ap word_of (drop-pad 15 12 e.name _ v.name) ∙ word_of_bytes e.next v.next)
        (ap (words_of sfs_entryrefs) (drop-pad 15 16 e.name _ v.name)
          ∙ words_of-le32_all sfs_entryrefs e.ref v.refs v.ref))
