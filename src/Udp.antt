-- ===== src/Udp.antt =====
-- udp.c: a client that sends numbered messages as UDP datagrams, and a server that prints what it
-- receives. The sockets are parameters: what each call of a round answers.
pub mod Server
pub mod Client
mod Tests
use ibverb_prototype.Prelude.{
  not, ℕ, ◌+◌, ◌==◌, leb, Bool, true, false, ◌&&◌, if◌then◌else◌, Option, none, some, List, [], ◌∷◌,
  ◌++◌, length, take, set, memcpy, replicate,
}
use ibverb_prototype.Text.{message, snprintf}
use ibverb_prototype.Signals.{reached}

-- The size of `udp_buffer`.
abbrev pub buffer_size : ℕ
buffer_size = 65535

-- `udp_buffer`, static storage that starts as zeros.
unfoldable pub udp_buffer : List ℕ
udp_buffer = replicate buffer_size 0

-- The family of a sender's address, with the address.
pub data Source : Type 0 where
  inet : List ℕ → Source
  inet6 : Source
  unknown : Source

-- What `recvfrom` answers: -1, or a datagram and its sender.
pub data Received : Type 0 where
  no_packet : Received
  packet_from : Source → List ℕ → Received

-- A line that is printed: the sender and the text.
pub record Printed : Type 0 where
  pub sender : List ℕ
  pub text : List ℕ

-- How the loop ends: by the flag, by `exit`, or by an access that C leaves undefined.
pub data Served : Type 0 where
  served : List Printed → Served
  no_reception : List Printed → Served
  undefined : List Printed → Served

-- The string that starts a buffer, for `%s`: up to its first zero.
unfoldable pub c_string : List ℕ → List ℕ
c_string [] = []
c_string (c ∷ cs) = let rest = c_string cs in if c == 0 then [] else c ∷ rest

-- The state of `server_loop`; `addr_str` is not initialised.
pub record Receiver : Type 0 where
  pub buffer : List ℕ
  pub addr_str : Option (List ℕ)
  pub printed : List Printed

-- `inet_ntop` for an IPv4 address is a parameter.
module _ (inet_ntop : List ℕ → List ℕ) where
  -- `printf`, after the switch has left `addr_str`.
  unfoldable pub print_line : Receiver → (Receiver → Served) → Option (List ℕ) → Served
  print_line s continue none = undefined s.printed
  print_line s continue (some addr) =
      let line : Printed = record { sender = addr; text = c_string s.buffer } in
      continue (record s { addr_str = some addr; printed = s.printed ++ (line ∷ []) })

  -- The switch on the family. A `struct sockaddr` has 16 bytes, which end before those of an IPv6
  -- address in it.
  unfoldable pub show_sender : Receiver → (Receiver → Served) → Source → Served
  unfolding print_line
  show_sender s continue (inet addr) = print_line s continue (some (inet_ntop addr))
  show_sender s continue inet6 = undefined s.printed
  show_sender s continue unknown = print_line s continue s.addr_str

  -- The body of the loop; `recvfrom` cuts a datagram to the buffer's size.
  unfoldable pub receive : Receiver → (Receiver → Served) → Received → Served
  unfolding show_sender
  receive s continue no_packet = no_reception s.printed
  receive s continue (packet_from from bytes) =
      let kept = take buffer_size bytes in
      let size = length kept in
      let filled = memcpy s.buffer kept size in
      if leb buffer_size size
      then undefined s.printed
      else show_sender (record s { buffer = set filled size 0 }) continue from

  -- The loop, over what `recvfrom` answers in each round that finds the flag set.
  unfoldable pub server_rounds : Receiver → List Received → Served
  unfolding receive
  server_rounds s [] = served s.printed
  server_rounds s (r ∷ rounds) = receive s (λ s'. server_rounds s' rounds) r

  unfoldable pub server_loop : List Received → Served
  unfolding server_rounds udp_buffer
  server_loop rounds =
      server_rounds (record { buffer = udp_buffer; addr_str = none; printed = [] }) rounds

-- The state of `client_loop` and the datagrams sent so far, oldest first.
pub record DatagramSender : Type 0 where
  pub buffer : List ℕ
  pub count : ℕ
  pub sent : List (List ℕ)

pub data Sent : Type 0 where
  finished : List (List ℕ) → Sent
  no_message : List (List ℕ) → Sent
  not_sent : List (List ℕ) → Sent

-- `result != msg_size`, for what `sendto` returns: a count, or -1.
unfoldable pub is_sent : ℕ → Option ℕ → Bool
is_sent size none = false
is_sent size (some result) = result == size

-- After `snprintf`, given its result and the buffer that it leaves.
unfoldable pub send_datagram :
    DatagramSender → (DatagramSender → Sent) → Option ℕ → ℕ × List ℕ → Sent
unfolding is_sent
send_datagram s continue result (size, filled) =
    if leb buffer_size size
    then no_message s.sent
    else (if is_sent size result
        then continue (record {
          buffer = filled;
          count = s.count + 1;
          sent = s.sent ++ (take size filled ∷ []);
        })
        else not_sent s.sent)

unfoldable pub client_rounds : DatagramSender → List (Option ℕ) → Sent
unfolding send_datagram
client_rounds s [] = finished s.sent
client_rounds s (result ∷ rounds) =
    send_datagram s (λ s'. client_rounds s' rounds) result
      (snprintf s.buffer buffer_size (message s.count))

-- `client_loop` after `getaddrinfo` has succeeded.
unfoldable pub client_loop : List (Option ℕ) → Sent
unfolding client_rounds udp_buffer
client_loop rounds = client_rounds (record { buffer = udp_buffer; count = 0; sent = [] }) rounds

-- Which calls before the loops succeed: `sigaction`, `getaddrinfo` for the local port, `socket`, `bind`, and
-- `getaddrinfo` for the destination.
pub record Startup : Type 0 where
  pub handled : Bool
  pub local_found : Bool
  pub socket_made : Bool
  pub is_bound : Bool
  pub destination_found : Bool

-- How `main` ends.
pub data Run : Type 0 where
  usage : Run
  not_started : Run
  serving : Served → Run
  sending : Sent → Run

-- `main`, from the number of its arguments, when SIGINT comes, and what each call of a round would answer.
unfoldable pub main :
    (List ℕ → List ℕ) → ℕ → Startup → List Bool → List Received → List (Option ℕ) → Run
unfolding server_loop client_loop
main inet_ntop argc up signals received results =
    let bound = up.local_found && (up.socket_made && up.is_bound) in
    if not up.handled
    then not_started
    else (if argc == 2
        then (if bound
            then serving (server_loop inet_ntop (reached signals received))
            else not_started)
        else (if argc == 3
            then (if bound && up.destination_found
                then sending (client_loop (reached signals results))
                else not_started)
            else usage))
