-- ===== src/OpenCl/Context.antt =====
-- `createContext`, `createProgramFromBinaries` and `get_program` of opencl_utils.cc.
use ibverb_prototype.Prelude.{ℕ, ◌*◌, ◌/◌, if◌then◌else◌, Option, none, some, List, [], ◌∷◌, ◌++◌}
use ibverb_prototype.Text.{digits, same_name}
use ibverb_prototype.OpenCl.{
  Answer, done, raised, DeviceType, Device, Platform, Program, Call, Runtime, Host, Outcome,
  returned, exited, and_then, attempt, print, print_error,
}
use ibverb_prototype.OpenCl.Messages.{codes, to_string, error_message}

abbrev Text : Type 0
Text = List ℕ

-- `platformName`, given the variable `PLATFORM` of the environment.
unfoldable pub platform_name : Option Text → Text
platform_name none = codes "Intel(R) FPGA SDK for OpenCL(TM)"
platform_name (some name) = name

-- The tests of the variable `TYPE`.
unfoldable pub type_named : Text → Option DeviceType
unfolding same_name
type_named name =
    if same_name name (codes "GPU")
    then some DeviceType.gpu
    else (if same_name name (codes "CPU")
        then some DeviceType.cpu
        else (if same_name name (codes "ACCELERATOR") then some DeviceType.accelerator else none))

-- `type` after them, and what they print.
unfoldable pub type_or_default : Option DeviceType → DeviceType
type_or_default none = DeviceType.default_type
type_or_default (some type) = type

unfoldable pub type_warning : Text → Option DeviceType → Text
type_warning name none = codes "Unrecognized device type: " ++ name
type_warning name (some type) = []

unfoldable pub device_type : Option Text → DeviceType
unfolding type_named type_or_default
device_type none = DeviceType.default_type
device_type (some name) = type_or_default (type_named name)

unfoldable pub device_type_warning : Option Text → Text
unfolding type_named type_warning
device_type_warning none = []
device_type_warning (some name) = type_warning name (type_named name)

-- The first loop over the platforms.
unfoldable pub platform_lines : List Platform → Text
platform_lines [] = []
platform_lines (p ∷ ps) =
    codes "Platform name: "
    ++ (p.name
        ++ (codes "\n"
            ++ (codes "Platform version: "
                ++ (p.version
                    ++ (codes "\n"
                        ++ (codes "Platform extensions: "
                            ++ (p.extensions ++ (codes "\n" ++ platform_lines ps))))))))

-- A `cl_ulong` in units of 2^20, in decimal.
unfoldable pub megabytes : ℕ → Text
unfolding digits
megabytes n = digits 20 (n / (1024 * 1024))

-- The loop over the devices.
unfoldable pub device_lines : List Device → Text
unfolding megabytes
device_lines [] = []
device_lines (d ∷ ds) =
    codes "Device: "
    ++ (d.name
        ++ (codes ", "
            ++ (codes "mem: "
                ++ (megabytes d.global_mem_size
                    ++ (codes " MB, max alloc: "
                        ++ (megabytes d.max_mem_alloc_size
                            ++ (codes " MB" ++ (codes "\n" ++ device_lines ds))))))))

-- The body of the test in the second loop: the devices, and the context of all of them.
unfoldable pub open_devices : Runtime → Answer (List Device) → Host → Outcome (List Device)
unfolding attempt print device_lines
open_devices rt answer s = attempt answer s (λ devices s1.
    attempt (rt.answers (Call.make_context devices)) (print (device_lines devices) s1)
      (λ _ s2. returned devices s2))

-- The second loop over the platforms, and what follows it.
unfoldable pub find_platform :
    Runtime → Text → DeviceType → List Platform → Host → Outcome (List Device)
unfolding same_name open_devices print_error
find_platform rt wanted type [] s =
    exited (print_error (codes "Platform not found: \"" ++ (wanted ++ codes "\"\n")) s)
find_platform rt wanted type (p ∷ ps) s =
    if same_name p.name wanted
    then open_devices rt (p.devices type) s
    else find_platform rt wanted type ps s

-- `createContext`, whose result stands for the two arguments that it sets.
unfoldable pub create_context : Runtime → Host → Outcome (List Device)
unfolding platform_name device_type device_type_warning platform_lines find_platform attempt print
    print_error
create_context rt s =
    let type = rt.getenv (codes "TYPE") in
    attempt rt.platforms (print_error (device_type_warning type) s) (λ platforms s1.
      find_platform rt (platform_name (rt.getenv (codes "PLATFORM"))) (device_type type) platforms
        (print (platform_lines platforms) s1))

-- What a stream over a file that cannot be opened has: nothing.
unfoldable pub contents : Option (List ℕ) → List ℕ
contents none = []
contents (some bytes) = bytes

-- `createProgramFromBinaries`.
unfoldable pub create_program_from_binaries : Runtime → List Device → Text → Answer Program
unfolding contents and_then
create_program_from_binaries rt devices name =
    let p : Program = record { devices = devices; binary = contents (rt.read_file name) } in
    and_then (rt.answers (Call.make_program p)) (λ _. done p)

-- The `catch` of `get_program`, and what follows the call in its `try`.
unfoldable pub after_load : Runtime → Answer Program → Host → Outcome Program
unfolding print print_error to_string error_message
after_load rt (done p) s = returned p (print (codes "\n") s)
after_load rt (raised e) s = exited (
    print_error
      (codes "Loading binary failed: "
        ++ (e.what
            ++ (codes "\n"
                ++ (codes "Error code: "
                    ++ (to_string e.err
                        ++ (codes "\n"
                            ++ (codes "Error message: "
                                ++ (error_message rt.macro e.err ++ codes "\n"))))))))
      s)

-- `get_program`.
unfoldable pub get_program : Runtime → Device → Text → Host → Outcome Program
unfolding create_program_from_binaries after_load print
get_program rt device filename s =
    after_load rt (create_program_from_binaries rt (device ∷ []) filename)
      (print (codes ">>> Loading program from binary: " ++ (filename ++ codes "\n")) s)
