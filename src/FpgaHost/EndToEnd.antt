-- ===== src/FpgaHost/EndToEnd.antt =====
-- From the command line of raw_ibverbs.c in FPGA mode to the channel of ibverbs.cl, by fpga_host.cc.
use ibverb_prototype.Prelude.{ℕ, ◌≡◌, true, some, List, [], length, All}
use ibverb_prototype.Crc.Correct.{IsByte}
use ibverb_prototype.LookupAddr.{Addr, IsAddr}
use ibverb_prototype.Packet.{Packet}
use ibverb_prototype.RawIbverbs.{total_header_size}
use ibverb_prototype.RawIbverbs.Program.{World}
use ibverb_prototype.Kernel.{data_size}
use ibverb_prototype.OpenCl.{Host}
use ibverb_prototype.FpgaHost.{Turns}
use ibverb_prototype.FpgaHost.Launch.{board, Output}
use ibverb_prototype.FpgaHost.Run.{is_copied}

abbrev Text : Type 0
Text = List ℕ

-- The signal handler is installed, and what the strings of the remote address are parsed to.
pub record IsParsed (w : World) (mac_text ipv4_text gid_text : Text) (a : Addr) : Type 0 where
  pub handler : w.handler ≡ true
  pub mac : w.parse_mac mac_text ≡ some a.mac
  pub ipv4 : w.parse_ipv4 ipv4_text ≡ some a.ipv4
  pub ipv6 : w.parse_ipv6 gid_text ≡ some a.ipv6
  pub whole : IsAddr a

-- A board before the loop, and the turns that its two queues take: the copy before the kernel.
pub record IsReady (s : Host) (mem old : List ℕ) (sent : Output) (t : Turns) : Type 0 where
  pub idle : s.board ≡ board mem old [] [] sent
  pub host_size : length mem ≡ total_header_size
  pub device_size : length old ≡ total_header_size
  pub in_order : is_copied t ≡ true
  pub scratch_size : length t.scratch ≡ data_size
  pub scratch_bytes : All IsByte t.scratch
