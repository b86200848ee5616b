-- ===== src/Executer/Buffer.antt =====
-- The buffers of the loops around `send` and `recv`, and how many answers of the kernel they need.
use aws_nitro_enclaves_cli.Common.{
  ℕ, zero, suc, ◌+◌, ◌-◌, ◌≤◌, ◌≡◌, refl, sym, ap, ◌∙◌, Bool, true, false, List, [], ◌∷◌, ◌++◌,
  arith, min, length, take, drop, length-append, length-take, length-drop, take-append-drop,
  take-append, drop-append,
}
use mathlib.Core.List.{append_assoc}
use native.Mathlib.Nat.{add_assoc}
use aws_nitro_enclaves_cli.Image.Bytes.{drop-drop, take-nil}
use aws_nitro_enclaves_cli.Executer.Socket.{Answer, transfer, refused, store}

-- The answers that move a byte, and whether one is an error.
abbrev pub moving : List Answer → ℕ
moving [] = 0
moving (transfer n ∷ answers) = min n 1 + moving answers
moving (_ ∷ answers) = moving answers

abbrev pub without_error : List Answer → Bool
without_error [] = true
without_error (refused e ∷ answers) = false
without_error (_ ∷ answers) = without_error answers

abbrev pub is_stopped : List Answer → Bool
is_stopped [] = true
is_stopped (refused e ∷ answers) = true
is_stopped _ = false

-- The kernel's answers hold no error, and at least `count` of them move a byte.
abbrev pub Serves : ℕ → List Answer → Type 0
Serves count answers = (without_error answers ≡ true) × (count ≤ moving answers)

pub take-take-drop :
    (a b : ℕ) (xs : List ℕ) → a ≤ b → take a xs ++ take (b - a) (drop a xs) ≡ take b xs
take-take-drop zero b xs h = let e : b - 0 ≡ b = omega arith in rw e refl
take-take-drop (suc a) zero xs h = absurd (omega arith)
take-take-drop (suc a) (suc b) [] h = take-nil (suc b - suc a)
take-take-drop (suc a) (suc b) (x ∷ xs) h =
    let e : suc b - suc a ≡ b - a = omega arith in
    rw e (ap (λ (t : List ℕ). x ∷ t) (take-take-drop a b xs (omega arith)))

-- What `store` makes of a buffer whose part before `at` is `front`.
store-append :
    (front ys rest : List ℕ)
    → store (length front) ys (front ++ rest) ≡ front ++ (ys ++ drop (length ys) rest)
unfolding store
store-append front ys rest =
    rw
      (
        take-append front rest,
        sym (drop-drop (length ys) (length front) (front ++ rest)),
        drop-append front rest,
      )
      refl

store-store :
    (n : ℕ) (xs ys buf : List ℕ)
    → n + length xs ≤ length buf
    → store (n + length xs) ys (store n xs buf) ≡ store n (xs ++ ys) buf
unfolding store
store-store n xs ys buf h =
    let front = take n buf ++ xs in
    let e : length front ≡ n + length xs =
      omega (arith, length-append (take n buf) xs, length-take n buf) in
    let rest = drop (n + length xs) buf in
    ap (λ (t : List ℕ). store (n + length xs) ys t) (sym (append_assoc (take n buf) xs rest))
    ∙ rw e at (store-append front ys rest)
    ∙ rw
        (
          append_assoc,
          append_assoc,
          length-append xs ys,
          drop-drop (length ys) (n + length xs) buf,
          add_assoc,
        )
        refl

pub store-store_of :
    (n size : ℕ) (xs ys buf : List ℕ)
    → length xs ≡ size
    → n + size ≤ length buf
    → store (n + size) ys (store n xs buf) ≡ store n (xs ++ ys) buf
store-store_of n size xs ys buf e h = rw (sym e) (store-store n xs ys buf (omega (arith, e)))

pub length-store :
    (n : ℕ) (xs buf : List ℕ) → n + length xs ≤ length buf → length (store n xs buf) ≡ length buf
unfolding store
length-store n xs buf h = omega (
  arith,
  length-append (take n buf) (xs ++ drop (n + length xs) buf),
  length-append xs (drop (n + length xs) buf),
  length-take n buf,
  length-drop (n + length xs) buf,
)

-- Two reads one after the other are one read.
pub store-twice :
    (n size rest : ℕ) (incoming buf : List ℕ)
    → size ≤ rest
    → rest ≤ length incoming
    → n + rest ≤ length buf
    → store (n + size) (take (rest - size) (drop size incoming)) (store n (take size incoming) buf)
      ≡ store n (take rest incoming) buf
store-twice n size rest incoming buf less enough fits =
    store-store_of n size (take size incoming) (take (rest - size) (drop size incoming)) buf
      (omega (arith, length-take size incoming)) (omega arith)
    ∙ ap (λ (t : List ℕ). store n t buf) (take-take-drop size rest incoming less)

pub drop-twice :
    (size rest : ℕ) (incoming : List ℕ)
    → size ≤ rest
    → drop (rest - size) (drop size incoming) ≡ drop rest incoming
drop-twice size rest incoming less =
    let e : size + (rest - size) ≡ rest = omega arith in
    rw e at (drop-drop (rest - size) size incoming)

pub store-nil : (n : ℕ) (buf : List ℕ) → store n [] buf ≡ buf
unfolding store
store-nil n buf = let e : n + 0 ≡ n = omega arith in rw e (take-append-drop n buf)
