-- ===== src/OpenCl/Unique.antt =====
-- What error code a message of `errorMessage` stands for.
use ibverb_prototype.Prelude.{
  ℕ, ◌+◌, ◌^◌, ◌<◌, ◌≡◌, refl, sym, ap, ◌∙◌, subst, arith, true, if◌then◌else◌, Bool-cases, inl,
  inr, Option, none, some, List, [], ◌∷◌, ◌++◌, All, append-cancel_last,
}
use ibverb_prototype.Text.{decimal, same_name}
use ibverb_prototype.Text.Decimal.{value, value-decimal, IsDigit, decimal-IsDigit}
use ibverb_prototype.OpenCl.Messages.{
  ℤ, codes, ErrorName, error_names, error_text, is_code, switch_case, to_string, case_text,
  error_message,
}

-- The first of the names whose text is the given one.
unfoldable named : List ℕ → List ErrorName → Option ErrorName
unfolding same_name error_text
named t [] = none
named t (n ∷ ns) = if same_name t (error_text n) then some n else named t ns

named-error_text : (n : ErrorName) → named (error_text n) error_names ≡ some n
unfolding named
named-error_text ErrorName.success = refl
named-error_text ErrorName.device_not_found = refl
named-error_text ErrorName.device_not_available = refl
named-error_text ErrorName.compiler_not_available = refl
named-error_text ErrorName.mem_object_allocation_failure = refl
named-error_text ErrorName.out_of_resources = refl
named-error_text ErrorName.out_of_host_memory = refl
named-error_text ErrorName.profiling_info_not_available = refl
named-error_text ErrorName.mem_copy_overlap = refl
named-error_text ErrorName.image_format_mismatch = refl
named-error_text ErrorName.image_format_not_supported = refl
named-error_text ErrorName.build_program_failure = refl
named-error_text ErrorName.map_failure = refl
named-error_text ErrorName.invalid_value = refl
named-error_text ErrorName.invalid_device_type = refl
named-error_text ErrorName.invalid_platform = refl
named-error_text ErrorName.invalid_device = refl
named-error_text ErrorName.invalid_context = refl
named-error_text ErrorName.invalid_queue_properties = refl
named-error_text ErrorName.invalid_command_queue = refl
named-error_text ErrorName.invalid_host_ptr = refl
named-error_text ErrorName.invalid_mem_object = refl
named-error_text ErrorName.invalid_image_format_descriptor = refl
named-error_text ErrorName.invalid_image_size = refl
named-error_text ErrorName.invalid_sampler = refl
named-error_text ErrorName.invalid_binary = refl
named-error_text ErrorName.invalid_build_options = refl
named-error_text ErrorName.invalid_program = refl
named-error_text ErrorName.invalid_program_executable = refl
named-error_text ErrorName.invalid_kernel_name = refl
named-error_text ErrorName.invalid_kernel_definition = refl
named-error_text ErrorName.invalid_kernel = refl
named-error_text ErrorName.invalid_arg_index = refl
named-error_text ErrorName.invalid_arg_value = refl
named-error_text ErrorName.invalid_arg_size = refl
named-error_text ErrorName.invalid_kernel_args = refl
named-error_text ErrorName.invalid_work_dimension = refl
named-error_text ErrorName.invalid_work_group_size = refl
named-error_text ErrorName.invalid_work_item_size = refl
named-error_text ErrorName.invalid_global_offset = refl
named-error_text ErrorName.invalid_event_wait_list = refl
named-error_text ErrorName.invalid_event = refl
named-error_text ErrorName.invalid_operation = refl
named-error_text ErrorName.invalid_gl_object = refl
named-error_text ErrorName.invalid_buffer_size = refl
named-error_text ErrorName.invalid_mip_level = refl
named-error_text ErrorName.invalid_global_work_size = refl
named-error_text ErrorName.invalid_property = refl
named-error_text ErrorName.invalid_image_descriptor = refl
named-error_text ErrorName.invalid_compiler_options = refl
named-error_text ErrorName.invalid_linker_options = refl
named-error_text ErrorName.invalid_device_partition_count = refl

named_unknown : (t : List ℕ) → named (codes "Unknown (" ++ t) error_names ≡ none
unfolding named
named_unknown t = refl

to_string_pos : (n m : ℕ) → n < 10 ^ 10 → m < 10 ^ 10 → decimal n ≡ decimal m → n ≡ m
to_string_pos n m h k e = sym (value-decimal n h) ∙ ap (value 0) e ∙ value-decimal m k

-- A minus sign is no digit.
decimal_unsigned : (n : ℕ) (xs : List ℕ) → decimal n ≡ b'-' ∷ xs → ⊥
decimal_unsigned n xs e =
    let digits : All IsDigit (b'-' ∷ xs) = subst (All IsDigit) e (decimal-IsDigit n) in
    absurd (omega (arith, digits.0))

-- The range of a `cl_int`.
abbrev pub IsClInt : ℤ → Type 0
IsClInt (ℤ.pos n) = n < 2 ^ 31
IsClInt (ℤ.negsuc n) = n < 2 ^ 31

to_string_inj : (a b : ℤ) → IsClInt a → IsClInt b → to_string a ≡ to_string b → a ≡ b
unfolding to_string
to_string_inj (ℤ.pos n) (ℤ.pos m) h k e = ap ℤ.pos (to_string_pos n m (omega arith) (omega arith) e)
to_string_inj (ℤ.pos n) (ℤ.negsuc m) h k e = absurd (decimal_unsigned n (decimal (m + 1)) e)
to_string_inj (ℤ.negsuc n) (ℤ.pos m) h k e = absurd (decimal_unsigned m (decimal (n + 1)) (sym e))
to_string_inj (ℤ.negsuc n) (ℤ.negsuc m) h k e =
    let same : decimal (n + 1) ≡ decimal (m + 1) = cc in
    let equal = to_string_pos (n + 1) (m + 1) (omega arith) (omega arith) same in
    ap ℤ.negsuc (omega arith)

is_code_sound : (v : Option ℤ) (e : ℤ) → is_code v e ≡ true → v ≡ some e
unfolding is_code
is_code_sound none e h = cc
is_code_sound (some (ℤ.pos n)) (ℤ.pos m) h = ap (λ k. some (ℤ.pos k)) (ground arith)
is_code_sound (some (ℤ.negsuc n)) (ℤ.negsuc m) h = ap (λ k. some (ℤ.negsuc k)) (ground arith)
is_code_sound (some (ℤ.pos n)) (ℤ.negsuc m) h = cc
is_code_sound (some (ℤ.negsuc n)) (ℤ.pos m) h = cc

switch_case_sound :
    (macro : ErrorName → Option ℤ) (e : ℤ) (ns : List ErrorName) (n : ErrorName)
    → switch_case macro e ns ≡ some n
    → macro n ≡ some e
unfolding switch_case
switch_case_sound macro e [] n h = cc
switch_case_sound macro e (m ∷ ns) n h = elim (Bool-cases (is_code (macro m) e)) [
  | inl yes_here ↦
      let same : m ≡ n = ground arith in rw (← same) (is_code_sound (macro m) e yes_here)
  | inr no_here ↦ switch_case_sound macro e ns n (ground arith)
]

error_text_inj : (n m : ErrorName) → error_text n ≡ error_text m → n ≡ m
error_text_inj n m e =
    let same : some n ≡ some m =
      sym (named-error_text n) ∙ ap (λ t. named t error_names) e ∙ named-error_text m in
    cc

error_text_known : (n : ErrorName) (t : List ℕ) → error_text n ≡ codes "Unknown (" ++ t → ⊥
error_text_known n t e =
    let same : some n ≡ none =
      sym (named-error_text n) ∙ ap (λ x. named x error_names) e ∙ named_unknown t in
    absurd (let f : ⊥ = cc in f)

-- What the two codes have in common when their messages agree, by the cases that the switch takes.
case_text_inj :
    (macro : ErrorName → Option ℤ) (a b : ℤ) (x y : Option ErrorName)
    → switch_case macro a error_names ≡ x
    → switch_case macro b error_names ≡ y
    → IsClInt a
    → IsClInt b
    → case_text a x ≡ case_text b y
    → a ≡ b
unfolding case_text
case_text_inj macro a b (some n) (some m) p q h k e =
    let v = switch_case_sound macro a error_names n p in
    let w = switch_case_sound macro b error_names m q in let same = error_text_inj n m e in cc
case_text_inj macro a b (some n) none p q h k e =
    absurd (error_text_known n (to_string b ++ codes ")") e)
case_text_inj macro a b none (some m) p q h k e =
    absurd (error_text_known m (to_string a ++ codes ")") (sym e))
case_text_inj macro a b none none p q h k e =
    let tails : to_string a ++ codes ")" ≡ to_string b ++ codes ")" = cc in
    to_string_inj a b h k (append-cancel_last (to_string a) (to_string b) b')' tails)

-- Whatever values the headers give to the macros, and whichever of the five optional ones are defined: two
-- codes in the range of `cl_int` with the same message are equal.
pub error_message_injective :
    (macro : ErrorName → Option ℤ) (a b : ℤ)
    → IsClInt a
    → IsClInt b
    → error_message macro a ≡ error_message macro b
    → a ≡ b
unfolding error_message
error_message_injective macro a b h k e =
    case_text_inj macro a b (switch_case macro a error_names) (switch_case macro b error_names) refl
      refl h k e
