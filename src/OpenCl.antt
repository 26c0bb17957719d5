-- ===== src/OpenCl.antt =====
-- opencl_utils.cc and opencl_utils.hpp: the wrappers of the OpenCL library. This file has what they take
-- from the library, which is a parameter, and how a call ends; the children have the functions.
pub mod Messages
pub mod Unique
pub mod Context
pub mod Found
pub mod Queues
pub mod Wrapper
pub mod Args
mod Tests
use ibverb_prototype.Prelude.{ℕ, Option, List, ◌++◌}
use ibverb_prototype.Kernel.{ChannelLine}
use ibverb_prototype.OpenCl.Messages.{ℤ, ErrorName}

abbrev Text : Type 0
Text = List ℕ

-- A `cl::Error`.
pub record ClError : Type 0 where
  pub what : Text
  pub err : ℤ

-- What a call of the library answers: a value, or an exception.
pub data Answer {ℓ} (A : Type ℓ) : Type ℓ where
  done : A → Answer A
  raised : ClError → Answer A

-- Two calls in turn; an exception of the first leaves out the second.
unfoldable pub and_then {ℓ κ} : {A : Type ℓ} {B : Type κ} → Answer A → (A → Answer B) → Answer B
and_then (done a) continue = continue a
and_then (raised e) continue = raised e

-- The types that `createContext` asks for.
pub data DeviceType : Type 0 where
  default_type gpu cpu accelerator : DeviceType

pub record Device : Type 0 where
  pub name : Text
  pub global_mem_size : ℕ
  pub max_mem_alloc_size : ℕ

pub record Platform : Type 0 where
  pub name : Text
  pub version : Text
  pub extensions : Text
  pub devices : DeviceType → Answer (List Device)

-- A `cl::Program`, as the devices and the binary that it is made of.
pub record Program : Type 0 where
  pub devices : List Device
  pub binary : List ℕ

-- An argument of a kernel: a buffer of the board, or a number.
pub data Arg : Type 0 where
  buffer_arg : Arg
  word_arg : ℕ → Arg

-- The calls that return nothing which the code looks at. `set_arg` is that of the argument with the
-- given index.
pub data Call : Type 0 where
  make_context : List Device → Call
  make_program : Program → Call
  make_queue make_device_buffer make_host_buffer map_buffer : Call
  make_kernel make_kernel_queue enqueue_copy : Call
  set_arg : ℕ → Arg → Call
  enqueue_kernel wait_event enqueue_unmap : Call

-- The environment, the files and the library.
pub record Runtime : Type 0 where
  pub getenv : Text → Option Text
  pub read_file : Text → Option (List ℕ)
  pub macro : ErrorName → Option ℤ
  pub platforms : Answer (List Platform)
  pub answers : Call → Answer (Unit {0})

-- A command that waits in a queue: a copy of so many bytes from the host's buffer to the device's, the
-- end of a mapping, or a run of the kernel with the arguments that it had when it was enqueued.
pub data Command : Type 0 where
  copy_buffer : ℕ → Command
  unmap : Command
  nd_range : (ℕ → Option Arg) → Command

-- The two buffers, the commands that wait in the program's own queue and in the kernel's, oldest first, and
-- what each run of the kernel has written to its channel.
pub record Board : Type 0 where
  pub host_mem : List ℕ
  pub device_mem : List ℕ
  pub own : List Command
  pub launched : List Command
  pub sent : List (Option (List ChannelLine))

-- What is printed, and the board.
pub record Host : Type 0 where
  pub out : Text
  pub err : Text
  pub board : Board

-- How a call ends: it returns, an exception leaves it, or it calls `exit`. The last is a use of
-- the first element of an empty vector.
pub data Outcome {ℓ} (A : Type ℓ) : Type ℓ where
  returned : A → Host → Outcome A
  uncaught : ClError → Host → Outcome A
  exited : Host → Outcome A
  undefined : Host → Outcome A

-- A call outside every `try`, and what follows it.
unfoldable pub attempt {ℓ κ} :
    {A : Type ℓ} {B : Type κ} → Answer A → Host → (A → Host → Outcome B) → Outcome B
attempt (done a) s continue = continue a s
attempt (raised e) s continue = uncaught e s

-- What follows a call of one of the functions of these files.
unfoldable pub after {ℓ κ} :
    {A : Type ℓ} {B : Type κ} → Outcome A → (A → Host → Outcome B) → Outcome B
after (returned a s) continue = continue a s
after (uncaught e s) continue = uncaught e s
after (exited s) continue = exited s
after (undefined s) continue = undefined s

unfoldable pub print : Text → Host → Host
print t s = record s { out = s.out ++ t }

unfoldable pub print_error : Text → Host → Host
print_error t s = record s { err = s.err ++ t }
