-- ===== src/OpenCl/Messages.antt =====
-- `errorMessage` of opencl_utils.cc: the text of an OpenCL error code.
use Prim.Native.Char.{code}
use Prim.Native.String.{String}
use ibverb_prototype.Prelude.{
  ℕ, ◌+◌, Bool, false, if◌then◌else◌, Option, none, some, List, [], ◌∷◌, ◌++◌, ◌==◌,
}
use ibverb_prototype.Text.{decimal}

-- A `cl_int`.
pub data ℤ : Type 0 where
  pos : ℕ → ℤ
  negsuc : ℕ → ℤ

-- The characters of a literal.
abbrev pub codes : String → List ℕ
codes String.[] = []
codes (String.◌∷◌ c s) = code c ∷ codes s

-- The macros of the cases, without their prefix `CL_`.
pub data ErrorName : Type 0 where
  success device_not_found device_not_available compiler_not_available : ErrorName
  mem_object_allocation_failure out_of_resources out_of_host_memory profiling_info_not_available :
      ErrorName
  mem_copy_overlap image_format_mismatch image_format_not_supported build_program_failure :
      ErrorName
  map_failure invalid_value invalid_device_type invalid_platform : ErrorName
  invalid_device invalid_context invalid_queue_properties invalid_command_queue : ErrorName
  invalid_host_ptr invalid_mem_object invalid_image_format_descriptor invalid_image_size : ErrorName
  invalid_sampler invalid_binary invalid_build_options invalid_program : ErrorName
  invalid_program_executable invalid_kernel_name invalid_kernel_definition invalid_kernel :
      ErrorName
  invalid_arg_index invalid_arg_value invalid_arg_size invalid_kernel_args : ErrorName
  invalid_work_dimension invalid_work_group_size invalid_work_item_size invalid_global_offset :
      ErrorName
  invalid_event_wait_list invalid_event invalid_operation invalid_gl_object : ErrorName
  invalid_buffer_size invalid_mip_level invalid_global_work_size invalid_property : ErrorName
  invalid_image_descriptor invalid_compiler_options invalid_linker_options
        invalid_device_partition_count :
      ErrorName

-- The cases in the order of the source.
abbrev pub error_names : List ErrorName
error_names =
    success ∷ device_not_found ∷ device_not_available ∷ compiler_not_available
    ∷ mem_object_allocation_failure ∷ out_of_resources ∷ out_of_host_memory
    ∷ profiling_info_not_available ∷ mem_copy_overlap ∷ image_format_mismatch
    ∷ image_format_not_supported ∷ build_program_failure ∷ map_failure ∷ invalid_value
    ∷ invalid_device_type ∷ invalid_platform ∷ invalid_device ∷ invalid_context
    ∷ invalid_queue_properties ∷ invalid_command_queue ∷ invalid_host_ptr ∷ invalid_mem_object
    ∷ invalid_image_format_descriptor ∷ invalid_image_size ∷ invalid_sampler ∷ invalid_binary
    ∷ invalid_build_options ∷ invalid_program ∷ invalid_program_executable ∷ invalid_kernel_name
    ∷ invalid_kernel_definition ∷ invalid_kernel ∷ invalid_arg_index ∷ invalid_arg_value
    ∷ invalid_arg_size ∷ invalid_kernel_args ∷ invalid_work_dimension ∷ invalid_work_group_size
    ∷ invalid_work_item_size ∷ invalid_global_offset ∷ invalid_event_wait_list ∷ invalid_event
    ∷ invalid_operation ∷ invalid_gl_object ∷ invalid_buffer_size ∷ invalid_mip_level
    ∷ invalid_global_work_size ∷ invalid_property ∷ invalid_image_descriptor
    ∷ invalid_compiler_options ∷ invalid_linker_options ∷ invalid_device_partition_count ∷ []

-- The text that a case returns.
unfoldable pub error_text : ErrorName → List ℕ
error_text success = codes "Success!"
error_text device_not_found = codes "Device not found."
error_text device_not_available = codes "Device not available"
error_text compiler_not_available = codes "Compiler not available"
error_text mem_object_allocation_failure = codes "Memory object allocation failure"
error_text out_of_resources = codes "Out of resources"
error_text out_of_host_memory = codes "Out of host memory"
error_text profiling_info_not_available = codes "Profiling information not available"
error_text mem_copy_overlap = codes "Memory copy overlap"
error_text image_format_mismatch = codes "Image format mismatch"
error_text image_format_not_supported = codes "Image format not supported"
error_text build_program_failure = codes "Program build failure"
error_text map_failure = codes "Map failure"
error_text invalid_value = codes "Invalid value"
error_text invalid_device_type = codes "Invalid device type"
error_text invalid_platform = codes "Invalid platform"
error_text invalid_device = codes "Invalid device"
error_text invalid_context = codes "Invalid context"
error_text invalid_queue_properties = codes "Invalid queue properties"
error_text invalid_command_queue = codes "Invalid command queue"
error_text invalid_host_ptr = codes "Invalid host pointer"
error_text invalid_mem_object = codes "Invalid memory object"
error_text invalid_image_format_descriptor = codes "Invalid image format descriptor"
error_text invalid_image_size = codes "Invalid image size"
error_text invalid_sampler = codes "Invalid sampler"
error_text invalid_binary = codes "Invalid binary"
error_text invalid_build_options = codes "Invalid build options"
error_text invalid_program = codes "Invalid program"
error_text invalid_program_executable = codes "Invalid program executable"
error_text invalid_kernel_name = codes "Invalid kernel name"
error_text invalid_kernel_definition = codes "Invalid kernel definition"
error_text invalid_kernel = codes "Invalid kernel"
error_text invalid_arg_index = codes "Invalid argument index"
error_text invalid_arg_value = codes "Invalid argument value"
error_text invalid_arg_size = codes "Invalid argument size"
error_text invalid_kernel_args = codes "Invalid kernel arguments"
error_text invalid_work_dimension = codes "Invalid work dimension"
error_text invalid_work_group_size = codes "Invalid work group size"
error_text invalid_work_item_size = codes "Invalid work item size"
error_text invalid_global_offset = codes "Invalid global offset"
error_text invalid_event_wait_list = codes "Invalid event wait list"
error_text invalid_event = codes "Invalid event"
error_text invalid_operation = codes "Invalid operation"
error_text invalid_gl_object = codes "Invalid OpenGL object"
error_text invalid_buffer_size = codes "Invalid buffer size"
error_text invalid_mip_level = codes "Invalid mip-map level"
error_text invalid_global_work_size = codes "Invalid global work size"
error_text invalid_property = codes "Invalid property"
error_text invalid_image_descriptor = codes "Invalid image descriptor"
error_text invalid_compiler_options = codes "Invalid compiler options"
error_text invalid_linker_options = codes "Invalid linker options"
error_text invalid_device_partition_count = codes "Invalid device partition count"

-- The macros' values are those of the OpenCL headers; `none` is a macro that is not defined, whose case
-- is not compiled.
unfoldable pub is_code : Option ℤ → ℤ → Bool
is_code none e = false
is_code (some (pos n)) (pos m) = n == m
is_code (some (negsuc n)) (negsuc m) = n == m
is_code (some (pos n)) (negsuc m) = false
is_code (some (negsuc n)) (pos m) = false

-- The case that the switch takes, of the ones given.
unfoldable pub switch_case : (ErrorName → Option ℤ) → ℤ → List ErrorName → Option ErrorName
unfolding is_code
switch_case macro e [] = none
switch_case macro e (n ∷ ns) = if is_code (macro n) e then some n else switch_case macro e ns

-- `std::to_string` of an `int`.
unfoldable pub to_string : ℤ → List ℕ
unfolding decimal
to_string (pos n) = decimal n
to_string (negsuc n) = b'-' ∷ decimal (n + 1)

unfoldable pub case_text : ℤ → Option ErrorName → List ℕ
unfolding error_text to_string
case_text e (some n) = error_text n
case_text e none = codes "Unknown (" ++ (to_string e ++ codes ")")

unfoldable pub error_message : (ErrorName → Option ℤ) → ℤ → List ℕ
unfolding switch_case case_text
error_message macro e = case_text e (switch_case macro e error_names)
