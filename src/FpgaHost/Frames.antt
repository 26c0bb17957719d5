-- ===== src/FpgaHost/Frames.antt =====
-- What the loop of fpga_host.cc leads the kernel to write when the OpenCL library's calls succeed.
use ibverb_prototype.Prelude.{ℕ, ◌≡◌, none, some, List, ◌∷◌, memcpy}
use ibverb_prototype.Packet.{Packet, packet_bytes}
use ibverb_prototype.RawIbverbs.{total_header_size}
use ibverb_prototype.OpenCl.{done, Device, Platform, Call, Runtime, Board}
use ibverb_prototype.OpenCl.Messages.{codes}
use ibverb_prototype.OpenCl.Context.{platform_name, device_type}
use ibverb_prototype.OpenCl.Found.{IsFirst}
use ibverb_prototype.FpgaHost.{Turns}
use ibverb_prototype.FpgaHost.Run.{whole_run}

-- A library with the wanted platform and a device of the wanted type, whose calls succeed.
pub record IsInstalled (rt : Runtime) (ps : List Platform) (p : Platform) (d : Device)
    (ds : List Device) : Type 0 where
  pub platforms : rt.platforms ≡ done ps
  pub first : IsFirst (platform_name (rt.getenv (codes "PLATFORM"))) ps (some p)
  pub devices : p.devices (device_type (rt.getenv (codes "TYPE"))) ≡ done (d ∷ ds)
  pub answers : (c : Call) → rt.answers c ≡ done tt

module _ (rt : Runtime) (t : Turns) (packet : Packet) (crc : ℕ) where
  -- The board after the loop, from the one before.
  end_board : Board → Board
  end_board b =
      whole_run rt t crc (record { args = λ _. none })
        (record b { host_mem = memcpy b.host_mem (packet_bytes packet) total_header_size })
