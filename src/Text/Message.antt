-- ===== src/Text/Message.antt =====
-- The buffer when a message is formatted over the one before it.
use ibverb_prototype.Prelude.{
  ℕ, suc, ◌+◌, ◌-◌, ◌^◌, ◌<◌, ◌≤◌, ◌≡◌, refl, ap, ap₂, ◌∙◌, sym, arith, List, [], ◌∷◌, ◌++◌, length,
  length-append, take, drop, take_enough, drop-append, drop-replicate, replicate, length-replicate,
  All, All-append, All-replicate, memcpy, append_assoc, take-all,
}
use ibverb_prototype.Crc.Correct.{IsByte}
use ibverb_prototype.Packet.Layout.{IsArray}
use ibverb_prototype.Text.{decimal, message, snprintf}
use ibverb_prototype.Text.Decimal.{
  value, value-decimal, length-decimal_le, length-decimal_mono, decimal-IsDigit, IsDigit,
}

-- A text and the zeros that fill a buffer of n bytes behind it.
unfoldable pub padded : ℕ → List ℕ → List ℕ
padded n text = text ++ replicate (n - length text) 0

pub length-padded : (n : ℕ) (text : List ℕ) → length text ≤ n → length (padded n text) ≡ n
unfolding padded
length-padded n text h = omega (
  arith,
  length-append text (replicate (n - length text) 0),
  length-replicate {A = ℕ} (n - length text) 0,
)

-- For `snprintf` with a buffer of n bytes that is full: a text that fits, formatted over a padded text that is no longer, leaves the padded text.
pub snprintf-padded :
    (n : ℕ) (old text : List ℕ)
    → length old ≤ length text
    → length text < n
    → snprintf (padded n old) n text ≡ (length text, padded n text)
unfolding snprintf memcpy padded
snprintf-padded n old text shorter fits = ap (λ l. (length text, l)) stored
  where
    k : ℕ
    k = length text + 1

    terminated : List ℕ
    terminated = text ++ (0 ∷ [])

    counted : length terminated ≡ k
    counted = length-append text (0 ∷ [])

    rest : drop k (old ++ replicate (n - length old) 0) ≡ replicate (n - k) 0
    rest =
        drop-append k old (replicate (n - length old) 0) (omega arith)
        ∙ drop-replicate (k - length old) (n - length old) 0
        ∙ ap (λ m. replicate m 0) (omega arith)

    filled : terminated ++ replicate (n - k) 0 ≡ text ++ replicate (n - length text) 0
    filled =
        append_assoc text (0 ∷ []) (replicate (n - k) 0)
        ∙ ap (λ m. text ++ replicate m 0) (let e : suc (n - k) ≡ n - length text = omega arith in e)

    stored :
        memcpy
          (padded n old)
          (take (n - 1) text ++ (0 ∷ []))
          (length (take (n - 1) text ++ (0 ∷ [])))
        ≡ padded n text
    stored =
        ap (λ t. memcpy (padded n old) (t ++ (0 ∷ [])) (length (t ++ (0 ∷ []))))
          (take_enough (n - 1) text (omega arith))
        ∙ ap₂ ◌++◌ (take-all terminated) (ap (λ m. drop m (padded n old)) counted ∙ rest)
        ∙ filled

pub length-message_le : (count : ℕ) → length (message count) ≤ 19
unfolding message
length-message_le count = omega (arith, length-decimal_le count)

pub length-message_mono : (n m : ℕ) → n ≤ m → length (message n) ≤ length (message m)
unfolding message
length-message_mono n m h = omega (arith, length-decimal_mono n m h)

digit-IsByte : (cs : List ℕ) → All IsDigit cs → All IsByte cs
digit-IsByte [] h = tt
digit-IsByte (c ∷ cs) h = (omega arith, digit-IsByte cs h.1)

pub message-IsByte : (count : ℕ) → All IsByte (message count)
unfolding message
message-IsByte count =
    All-append IsByte (b'M' ∷ b'e' ∷ b's' ∷ b's' ∷ b'a' ∷ b'g' ∷ b'e' ∷ b':' ∷ b' ' ∷ [])
      (decimal count) (omega arith) (digit-IsByte (decimal count) (decimal-IsDigit count))

-- The buffer after a message, and its bytes.
pub padded-IsArray : (n count : ℕ) → 19 ≤ n → IsArray n (padded n (message count))
padded-IsArray n count h = (
  length-padded n (message count) (omega (arith, length-message_le count)),
  unfold padded in
      All-append IsByte (message count) (replicate (n - length (message count)) 0)
        (message-IsByte count) (All-replicate IsByte (n - length (message count)) 0 (omega arith)),
)

drop-message : (n : ℕ) → drop 9 (message n) ≡ decimal n
unfolding message
drop-message n = refl

-- Different counts below 10 ^ 10 give different messages.
pub message-injective : (n m : ℕ) → n < 10 ^ 10 → m < 10 ^ 10 → message n ≡ message m → n ≡ m
message-injective n m hn hm h =
    sym (value-decimal n hn)
    ∙ ap (value 0) (sym (drop-message n) ∙ ap (drop 9) h ∙ drop-message m)
    ∙ value-decimal m hm
