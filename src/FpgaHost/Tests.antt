-- ===== src/FpgaHost/Tests.antt =====
-- The FPGA's loop on one installation, with the copy before the kernel and behind it.
use ibverb_prototype.Prelude.{ℕ, true, ◌≡◌, refl, false, none, some, List, [], ◌∷◌, replicate}
use ibverb_prototype.LookupAddr.{Addr}
use ibverb_prototype.Packet.{Packet}
use ibverb_prototype.RawIbverbs.Program.{World}
use ibverb_prototype.Kernel.{data_size}
use ibverb_prototype.OpenCl.{done, Device, Platform, Runtime, Host}
use ibverb_prototype.OpenCl.Messages.{codes}
use ibverb_prototype.OpenCl.Queues.{own_queue, kernel_queue}
use ibverb_prototype.FpgaHost.{Turns}
use ibverb_prototype.FpgaHost.Launch.{board}
use ibverb_prototype.FpgaHost.Run.{is_copied}

zero_bytes : List ℕ
zero_bytes = replicate data_size 0

abbrev card : Device
card = record { name = codes "a10"; global_mem_size = 2147483648; max_mem_alloc_size = 1048576 }

abbrev platform : Platform
platform = record {
  name = codes "Intel(R) FPGA SDK for OpenCL(TM)";
  version = codes "2";
  extensions = [];
  devices = λ type. done (card ∷ []);
}

abbrev runtime : Runtime
runtime = record {
  getenv = λ name. none;
  read_file = λ name. some (1 ∷ []);
  macro = λ name. none;
  platforms = done (platform ∷ []);
  answers = λ c. done tt;
}

-- The bytes of the two buffers before the loop.
abbrev fresh : List ℕ
fresh = replicate 74 7

abbrev host : Host
host = record { out = []; err = []; board = board fresh fresh [] [] [] }

in_order : Turns
in_order = record {
  after_copy = [];
  after_launch = own_queue ∷ kernel_queue ∷ [];
  after_unmap = own_queue ∷ [];
  scratch = zero_bytes;
}

-- The kernel's queue has the first turn.
overtaken : Turns
overtaken = record {
  after_copy = [];
  after_launch = kernel_queue ∷ [];
  after_unmap = own_queue ∷ [];
  scratch = zero_bytes;
}

-- So the kernel reads what the buffer held before.
overtaken_copy : is_copied overtaken ≡ false
unfolding is_copied overtaken
overtaken_copy = refl

abbrev here : Addr
here = record { mac = replicate 6 1; ipv4 = 7; ipv6 = replicate 16 2 }

abbrev world : World
world = record {
  handler = true;
  interfaces = none;
  resolve = λ host. none;
  arp_socket = false;
  arp = λ ipv4 device. none;
  parse_mac = λ t. some here.mac;
  parse_ipv4 = λ t. some here.ipv4;
  parse_ipv6 = λ t. some here.ipv6;
  atoi = λ t. 0x182;
  has_index = λ t. false;
  own_addr = here;
  packet_socket = false;
  beyond = [];
  signals = [];
  sends = [];
}
