-- ===== src/OpenCl/Tests.antt =====
-- The OpenCL wrappers on one installation with two platforms.
use ibverb_prototype.Prelude.{
  ◌≡◌, refl, ◌==◌, if◌then◌else◌, arith, Option, none, some, List, [], ◌∷◌,
}
use ibverb_prototype.OpenCl.{
  done, raised, Answer, Arg, Call, Device, Platform, Runtime, Host, exited, print, print_error,
}
use ibverb_prototype.OpenCl.Messages.{ℤ, pos, negsuc, codes, ErrorName, error_message}
use ibverb_prototype.OpenCl.Unique.{error_message_injective}
use ibverb_prototype.OpenCl.Context.{get_program}
use ibverb_prototype.OpenCl.Wrapper.{ClKernel, invoke}
use ibverb_prototype.OpenCl.Args.{IsInvoked, invoke-IsInvoked}

-- The headers' values of some of the macros; those that are left out are not defined.
abbrev macro : ErrorName → Option ℤ
macro ErrorName.success = some (pos 0)
macro ErrorName.device_not_found = some (negsuc 0)
macro ErrorName.invalid_device = some (negsuc 32)
macro _ = none

invalid_device_text : error_message macro (negsuc 32) ≡ codes "Invalid device"
unfolding error_message
invalid_device_text = refl

unknown_text : error_message macro (negsuc 1000) ≡ codes "Unknown (-1001)"
unfolding error_message
unknown_text = refl

error_message_injective_example : negsuc 32 ≡ negsuc 32
error_message_injective_example =
    error_message_injective macro (negsuc 32) (negsuc 32) (omega arith) (omega arith) refl

abbrev board_of_two : Device
board_of_two = record {
  name = codes "a10";
  global_mem_size = 2147483648;
  max_mem_alloc_size = 1048576;
}

abbrev other_platform : Platform
other_platform = record {
  name = codes "pocl";
  version = codes "1";
  extensions = [];
  devices = λ type. done [];
}

abbrev fpga_platform : Platform
fpga_platform = record {
  name = codes "Intel(R) FPGA SDK for OpenCL(TM)";
  version = codes "2";
  extensions = codes "x";
  devices = λ type. done (board_of_two ∷ []);
}

abbrev both : List Platform
both = other_platform ∷ fpga_platform ∷ []

abbrev runtime : Runtime
runtime = record {
  getenv = λ name. none;
  read_file = λ name. some (1 ∷ []);
  macro = macro;
  platforms = done both;
  answers = λ c. done tt;
}

abbrev host : Host
host = record {
  out = [];
  err = [];
  board = record { host_mem = []; device_mem = []; own = []; launched = []; sent = [] };
}

-- A library that takes the first argument and refuses the second.
refusal : Call → Answer (Unit {0})
refusal (Call.set_arg n a) =
    if n == 1 then raised (record { what = codes "clSetKernelArg"; err = negsuc 32 }) else done tt
refusal c = done tt

choosy : Runtime
choosy = record runtime { answers = refusal }

abbrev kernel : ClKernel
kernel = record { args = λ i. none }

abbrev two_args : List Arg
two_args = Arg.buffer_arg ∷ Arg.word_arg 9 ∷ []

refused_argument :
    invoke choosy kernel two_args host
    ≡ exited (print_error (codes "Error: clSetKernelArg\nInvalid device\n") host)
unfolding invoke choosy refusal print_error
refused_argument = refl

invoke-IsInvoked_example :
    IsInvoked choosy kernel two_args host (invoke choosy kernel two_args host)
invoke-IsInvoked_example = invoke-IsInvoked choosy kernel two_args host

-- A binary that the library refuses ends the program with its message.
refused : Runtime
refused = record runtime {
  answers = λ c. raised (record { what = codes "clCreateProgramWithBinary"; err = negsuc 32 });
}

refused_ends :
    get_program refused board_of_two (codes "b") host
    ≡ exited (
        print_error
          (codes
            "Loading binary failed: clCreateProgramWithBinary\nError code: -33\nError message: Invalid device\n")
          (print (codes ">>> Loading program from binary: b\n") host))
unfolding get_program refused print print_error
refused_ends = refl
