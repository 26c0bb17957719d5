-- ===== src/Rdma/Setup/Held.antt =====
-- What a trace of acquisitions and releases leaves held, and when the trace is proper: nothing is
-- acquired twice or before what it rests on, and nothing is released that is not held or that
-- something held still rests on.
use ibverb_prototype.Prelude.{
  ℕ, ◌==◌, Bool, true, false, not, ◌&&◌, ◌||◌, if◌then◌else◌, Option, none, some, ◌>>=◌, List, [],
  ◌∷◌,
}
use ibverb_prototype.Rdma.Setup.State.{
  Resource, device_list, device_context, pd, cq, qp, data_mem, data_mr, header_mem, header_mr,
  result_array, sge_array, recv_array, send_array, ah_handle, Event, acquired, released,
}

abbrev number : Resource → ℕ
number device_list = 0
number device_context = 1
number pd = 2
number cq = 3
number qp = 4
number data_mem = 5
number data_mr = 6
number header_mem = 7
number header_mr = 8
number result_array = 9
number sge_array = 10
number recv_array = 11
number send_array = 12
number ah_handle = 13

abbrev pub is_in : Resource → List Resource → Bool
is_in r [] = false
is_in r (x ∷ xs) = (number r == number x) || is_in r xs

abbrev all_in : List Resource → List Resource → Bool
all_in [] xs = true
all_in (r ∷ rs) xs = is_in r xs && all_in rs xs

abbrev remove : Resource → List Resource → List Resource
remove r [] = []
remove r (x ∷ xs) = if number r == number x then xs else x ∷ remove r xs

-- What a resource of the verbs library is made from, and a memory region is registered over.
abbrev rests_on : Resource → List Resource
rests_on pd = device_context ∷ []
rests_on cq = device_context ∷ []
rests_on qp = pd ∷ cq ∷ []
rests_on data_mr = pd ∷ data_mem ∷ []
rests_on header_mr = pd ∷ header_mem ∷ []
rests_on ah_handle = pd ∷ []
rests_on _ = []

-- Whether something in the list rests on r.
abbrev is_used : Resource → List Resource → Bool
is_used r [] = false
is_used r (x ∷ xs) = is_in r (rests_on x) || is_used r xs

abbrev pub held : List Event → Option (List Resource)
held [] = some []
held (acquired r ∷ trace) =
    held trace >>= λ rs. if all_in (rests_on r) rs && not (is_in r rs) then some (r ∷ rs) else none
held (released r ∷ trace) =
    held trace >>= λ rs. if is_in r rs && not (is_used r rs) then some (remove r rs) else none
