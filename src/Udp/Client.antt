-- ===== src/Udp/Client.antt =====
-- What the client sends, and what the server prints of it.
use ibverb_prototype.Prelude.{
  ℕ, zero, suc, ◌+◌, ◌≤◌, ◌<◌, ◌≡◌, arith, Option, some, List, [], ◌∷◌, length, All,
}
use ibverb_prototype.Text.{message}
use ibverb_prototype.Text.Message.{padded, length-message_le}
use ibverb_prototype.Udp.{buffer_size, Printed}
use ibverb_prototype.Udp.Server.{Datagram}

-- The n results of `sendto` for the messages from k on, when all is sent.
abbrev pub all_results : ℕ → ℕ → List (Option ℕ)
all_results k zero = []
all_results k (suc n) = some (length (message k)) ∷ all_results (k + 1) n

abbrev pub messages : ℕ → ℕ → List (List ℕ)
messages k zero = []
messages k (suc n) = message k ∷ messages (k + 1) n

-- The buffer before message k, over a text that is no longer.
record IsBefore (k : ℕ) (buffer : List ℕ) : Type 0 where
  pub old : List ℕ
  pub content : buffer ≡ padded buffer_size old
  pub shorter : length old ≤ length (message k)

-- A text without a zero is its own string.
IsText : List ℕ → Type 0
IsText cs = All (λ c. 0 < c) cs

-- The messages as datagrams from one address, and the lines that they make.
unfoldable pub datagrams : List ℕ → ℕ → ℕ → List Datagram
datagrams addr k zero = []
datagrams addr k (suc n) =
    record { addr = addr; bytes = message k; short = omega (arith, length-message_le k) }
    ∷ datagrams addr (k + 1) n

unfoldable pub message_lines : List ℕ → ℕ → ℕ → List Printed
message_lines sender k zero = []
message_lines sender k (suc n) =
    record { sender = sender; text = message k } ∷ message_lines sender (k + 1) n

pub bytes_of : List Datagram → List (List ℕ)
bytes_of [] = []
bytes_of (d ∷ ds) = d.bytes ∷ bytes_of ds
