-- ===== src/CpuMiner/Script.antt =====
-- What the script of a coinbase says.
use mathlib.Core.List.{Memᴰ, append_assoc}
use drivechain_litwindow.Prelude.{
  ℕ, zero, suc, ◌+◌, ◌*◌, ◌/◌, ◌%◌, ◌^◌, ◌≤◌, ◌<◌, ◌≡◌, refl, sym, ap, ◌∙◌, false, ◌&&◌, some, List,
  [], ◌∷◌, ◌++◌, Bytes, length, length-append, get_or, take, drop, ltb, leb, ◌==◌, Result, ok, err,
  is_ok, arith, Bool-cases, inl, inr,
}
use drivechain_litwindow.CpuMiner.{put, decode_hex}
use drivechain_litwindow.CpuMiner.Coinbase.{
  height_bytes, height_script, coinbase_start, push_length, push_of, insert_signature, AuxError,
  add_aux, add_all_from, add_all_aux,
}

-- The bytes of a positive number as a script reads it, the lowest first, and no more of them than needed: the highest is not 0, unless it stands behind a byte of 0x80 or more, whose highest bit would be a sign.
pub data IsNumber : ℕ → Bytes → Type 0 where
  last : (n : ℕ) → 0 < n → n < 0x80 → IsNumber n (n ∷ [])
  unsigned : (n : ℕ) → 0x80 ≤ n → n < 0x100 → IsNumber n (n ∷ 0 ∷ [])
  more :
      (n b m : ℕ) (bs : Bytes)
      → n ≡ b + 256 * m
      → b < 256
      → 0 < m
      → IsNumber m bs
      → IsNumber n (b ∷ bs)

-- What the first item of a coinbase's script says: a number from 1 to 16 by its own opcode, followed by OP_0, zero by no bytes, and any other by its bytes, as many as the first byte says.
pub data Says : ℕ → Bytes → Type 0 where
  small : (n op : ℕ) → 0 < n → n ≤ 16 → op ≡ n + 0x50 → Says n (op ∷ 0 ∷ [])
  nothing : (n : ℕ) → n ≡ 0 → Says n (0 ∷ [])
  bytes : (n l : ℕ) (bs : Bytes) → 16 < n → l ≡ length bs → l < 76 → IsNumber n bs → Says n (l ∷ bs)

height_bytes-zero : (rounds n : ℕ) → n ≡ 0 → height_bytes (suc rounds) n ≡ some []
unfolding height_bytes
height_bytes-zero rounds n h = ground arith

height_bytes-IsNumber :
    (rounds n : ℕ)
    → 0 < n
    → n < 256 ^ rounds
    → (bs : Bytes) × (height_bytes (suc rounds) n ≡ some bs)
      × IsNumber n bs
      × (length bs ≤ suc rounds)
unfolding height_bytes
height_bytes-IsNumber zero n h l = absurd (omega arith)
height_bytes-IsNumber (suc rounds) n h l = elim (Bool-cases (ltb n 0x100)) [
  | inr long ↦
      let (bs, e, number, short) =
        height_bytes-IsNumber rounds (n / 256) (ground arith) (omega arith) in
      (
        n % 256 ∷ bs,
        ground (arith),
        more n (n % 256) (n / 256) bs (omega arith) (omega arith) (ground arith) number,
        omega arith,
      )
  | inl byte ↦ elim (Bool-cases (leb 0x80 n)) [
    | inl high ↦ (
      n % 256 ∷ 0 ∷ [],
      ground (arith, height_bytes-zero rounds (n / 256)),
      (let e : n % 256 ≡ n = ground arith in rw e (unsigned n (ground arith) (ground arith))),
      omega arith,
    )
    | inr low ↦ (
      n % 256 ∷ [],
      ground (arith, height_bytes-zero rounds (n / 256)),
      (let e : n % 256 ≡ n = ground arith in rw e (last n h (ground arith))),
      omega arith,
    )
  ]
]

-- The script of a coinbase says the height of its block, for every height of an int that is not negative: one from 1 to 16 is the opcode of its own and OP_0, and one above is pushed as a number of as few bytes as its sign allows, in a loop that ends.
pub height_script-Says :
    (height : ℕ)
    → height < 2 ^ 63
    → (script : Bytes) × (height_script height ≡ some script) × Says height script
unfolding height_script
height_script-Says height small' = elim (Bool-cases (leb 1 height && leb height 16)) [
  | inl low ↦ (
    (height + 0x50) % 256 ∷ 0x00 ∷ [],
    rw low refl,
    small height ((height + 0x50) % 256) (ground arith) (ground arith) (ground arith),
  )
  | inr high ↦ elim (Bool-cases (height == 0)) [
    | inl none' ↦
        (0 ∷ [], ground (arith, height_bytes-zero 9 height), nothing height (ground arith))
    | inr some' ↦
        let (bs, e, number, short) = height_bytes-IsNumber 9 height (ground arith) (omega arith) in
        (
          length bs % 256 ∷ bs,
          rw (high, e) refl,
          bytes height (length bs % 256) bs (ground arith) (omega arith) (omega arith) number,
        )
  ]
]

take-append : (xs ys : Bytes) → take (length xs) (xs ++ ys) ≡ xs
take-append [] ys = refl
take-append (x ∷ xs) ys = ap (λ (t : Bytes). x ∷ t) (take-append xs ys)

drop-append : (xs ys : Bytes) → drop (length xs) (xs ++ ys) ≡ ys
drop-append [] ys = refl
drop-append (x ∷ xs) ys = drop-append xs ys

-- A coinbase with a script of a length.
abbrev pub with_script : ℕ → Bytes → Bytes → Bytes
with_script l script rest = coinbase_start ++ l ∷ (script ++ rest)

start_length : length coinbase_start ≡ 41
unfolding coinbase_start
start_length = refl

split_at_end :
    (script rest : Bytes)
    → with_script (length script) script rest ≡ (coinbase_start ++ length script ∷ script) ++ rest
split_at_end script rest = sym (append_assoc coinbase_start (length script ∷ script) rest)

end_at : (script : Bytes) → 42 + length script ≡ length (coinbase_start ++ length script ∷ script)
end_at script =
    omega (arith, start_length, length-append {0} coinbase_start (length script ∷ script))

take-with_script :
    (script rest : Bytes)
    → take (42 + length script) (with_script (length script) script rest)
      ≡ coinbase_start ++ length script ∷ script
take-with_script script rest =
    rw (split_at_end script rest, end_at script)
      (take-append (coinbase_start ++ length script ∷ script) rest)

drop-with_script :
    (script rest : Bytes)
    → drop (42 + length script) (with_script (length script) script rest) ≡ rest
drop-with_script script rest =
    rw (split_at_end script rest, end_at script)
      (drop-append (coinbase_start ++ length script ∷ script) rest)

byte_41 : (l : ℕ) (rest : Bytes) → get_or (coinbase_start ++ l ∷ rest) 41 0 ≡ l
unfolding coinbase_start
byte_41 l rest = refl

put_41 :
    (l v : ℕ) (rest : Bytes) → put (coinbase_start ++ l ∷ rest) 41 v ≡ coinbase_start ++ v ∷ rest
unfolding coinbase_start put
put_41 l v rest = refl

put_script :
    (l v : ℕ) (script push xsig rest : Bytes)
    → put ((coinbase_start ++ l ∷ script) ++ (push ++ (xsig ++ rest))) 41 v
      ≡ coinbase_start ++ v ∷ ((script ++ (push ++ xsig)) ++ rest)
put_script l v script push xsig rest =
    ap (λ (t : Bytes). put t 41 v)
      (append_assoc coinbase_start (l ∷ script) (push ++ (xsig ++ rest)))
    ∙ put_41 l v (script ++ (push ++ (xsig ++ rest)))
    ∙ ap (λ (t : Bytes). coinbase_start ++ v ∷ t)
        (sym (
          append_assoc script (push ++ xsig) rest
          ∙ ap (λ (t : Bytes). script ++ t) (append_assoc push xsig rest)))

-- The script with a signature at its end, after the opcode that pushes it.
abbrev pub signed_script : Bytes → Bytes → Bytes
signed_script script xsig =
    script ++ (push_of (push_length (length script) (length xsig)) (length xsig) ++ xsig)

insert_signature-with_script :
    (script rest : Bytes) (c : ℕ) (cs : Bytes)
    → insert_signature (with_script (length script) script rest) (c ∷ cs)
      ≡ with_script
          ((length script + (length (c ∷ cs) + push_length (length script) (length (c ∷ cs))))
            % 256)
          (signed_script script (c ∷ cs))
          rest
unfolding insert_signature push_length
insert_signature-with_script script rest c cs =
    rw
      (
        byte_41 (length script) (script ++ rest),
        take-with_script script rest,
        drop-with_script script rest,
      )
      (put_script (length script)
        ((length script + (length (c ∷ cs) + push_length (length script) (length (c ∷ cs)))) % 256)
        script (push_of (push_length (length script) (length (c ∷ cs))) (length (c ∷ cs))) (c ∷ cs)
        rest)

length-push_of :
    (script_length n : ℕ)
    → length (push_of (push_length script_length n) n) ≡ push_length script_length n
unfolding push_of push_length
length-push_of script_length n = ground arith

-- A signature that fits is inserted into a coinbase at the end of its script, behind the opcode that pushes it, and the byte before the script says how long the new script is, which is 100 bytes at most. A signature fits if it is not empty and leaves room for two bytes of opcode.
pub insert_signature-fits :
    (script rest : Bytes) (c : ℕ) (cs : Bytes)
    → length script + 2 + length (c ∷ cs) ≤ 100
    → (insert_signature (with_script (length script) script rest) (c ∷ cs)
        ≡ with_script (length (signed_script script (c ∷ cs))) (signed_script script (c ∷ cs)) rest)
      × (length (signed_script script (c ∷ cs)) ≤ 100)
      × (0 < push_length (length script) (length (c ∷ cs)))
insert_signature-fits script rest c cs h =
    let n = length (c ∷ cs) in
    let p = push_length (length script) n in
    let total : length (signed_script script (c ∷ cs)) ≡ length script + (n + p) = omega (
      arith,
      length-append {0} script (push_of p n ++ c ∷ cs),
      length-append {0} (push_of p n) (c ∷ cs),
      length-push_of (length script) n,
    ) in
    let bound : (0 < p) × (length script + (n + p) ≤ 100) = unfold push_length in ground arith in
    let e : (length script + (n + p)) % 256 ≡ length (signed_script script (c ∷ cs)) =
      omega arith in
    (
      insert_signature-with_script script rest c cs
          ∙ ap (λ (l : ℕ). with_script l (signed_script script (c ∷ cs)) rest) e,
      omega arith,
      bound.0,
    )

-- A signature that does not fit is inserted all the same, as bare bytes: the script is as long as both.
pub insert_signature-too_long :
    (script rest : Bytes) (c : ℕ) (cs : Bytes)
    → 76 ≤ (length script + length (c ∷ cs) % 256) % 256
    → 100 < length script + 2 + length (c ∷ cs)
    → signed_script script (c ∷ cs) ≡ script ++ c ∷ cs
unfolding push_length push_of
insert_signature-too_long script rest c cs h k =
    let p : push_length (length script) (length (c ∷ cs)) ≡ 0 = ground arith in rw p refl

add_aux-empty : (xsig : Bytes) → is_ok (add_aux xsig []) ≡ false
unfolding add_aux decode_hex
add_aux-empty xsig = refl

add_all_from-err :
    (r : Result AuxError Bytes) (rest : Bytes → Result AuxError Bytes)
    → is_ok r ≡ false
    → is_ok (add_all_from r rest) ≡ false
unfolding add_all_from
add_all_from-err (err e) rest h = refl
add_all_from-err (ok xsig) rest h = cc

add_all_from-rest :
    (r : Result AuxError Bytes) (rest : Bytes → Result AuxError Bytes)
    → ((xsig : Bytes) → is_ok (rest xsig) ≡ false)
    → is_ok (add_all_from r rest) ≡ false
unfolding add_all_from
add_all_from-rest (err e) rest h = refl
add_all_from-rest (ok xsig) rest h = h xsig

-- An empty value among the auxiliary data is an error, wherever it stands and whatever the signature: no work is decoded from such a template.
pub add_all_aux-empty :
    (values : List Bytes) (xsig : Bytes) → Memᴰ [] values → is_ok (add_all_aux values xsig) ≡ false
unfolding add_all_aux
add_all_aux-empty [] xsig m = elim m [ ]
add_all_aux-empty (s ∷ rest) xsig (Memᴰ.head e) =
    add_all_from-err (add_aux xsig s) (add_all_aux rest) (rw (← e) (add_aux-empty xsig))
add_all_aux-empty (s ∷ rest) xsig (Memᴰ.tail m) =
    add_all_from-rest (add_aux xsig s) (add_all_aux rest) (λ x. add_all_aux-empty rest x m)
