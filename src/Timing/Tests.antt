-- ===== src/Timing/Tests.antt =====
-- The timing storage at concrete histories.
use docker_net_doctor.Prelude.{◌+◌, ◌≡◌, refl, true, List, [], ◌∷◌, some, keep, if◌then◌else◌, ltb}
use docker_net_doctor.Prelude.Int.{pos}
use docker_net_doctor.Prelude.Dict.{lookup, insert}
use docker_net_doctor.Prelude.Text.{codes, text_eq}
use docker_net_doctor.Timing.{
  Pointer, TimingData, new_timing_storage, store, add_to_indexes, remove_from_indexes, append,
  overwrite, index_of, swap_remove,
}
use docker_net_doctor.Timing.Buffer.{not_nil, get_all, get_by_category, capacity, collect}
use docker_net_doctor.Timing.Window.{latest, store_all, get_all-store_all}
use docker_net_doctor.Timing.Indexes.{IsIndexed, indexes-store_all}

-- Measurements at addresses from 3 on are of the category "dns".
abbrev memory : Pointer → TimingData
memory p = record {
  name = [];
  start_time = p;
  end_time = p + 1;
  duration = pos 1;
  category = if ltb p 3 then codes "net" else codes "dns";
  check_name = [];
  worker_id = pos 0;
  success = true;
}

abbrev history : List Pointer
history = 1 ∷ 2 ∷ 0 ∷ 3 ∷ 4 ∷ 5 ∷ []

get_all-store_all_example :
    get_all (store_all memory history (new_timing_storage (pos 3)))
    ≡ latest (capacity (new_timing_storage (pos 3))) (keep not_nil history)
get_all-store_all_example = get_all-store_all memory (pos 3) history

indexes-store_all_example : IsIndexed memory (store_all memory history (new_timing_storage (pos 3)))
indexes-store_all_example = indexes-store_all memory (pos 3) history

latest_three : get_all (store_all memory history (new_timing_storage (pos 3))) ≡ 3 ∷ 4 ∷ 5 ∷ []
unfolding get_all store_all store append overwrite add_to_indexes remove_from_indexes
    new_timing_storage collect lookup insert text_eq index_of swap_remove
latest_three = refl

indexed_dns :
    get_by_category (codes "dns") (store_all memory history (new_timing_storage (pos 3)))
    ≡ some (3 ∷ 4 ∷ 5 ∷ [])
unfolding get_by_category store_all store append overwrite add_to_indexes remove_from_indexes
    new_timing_storage lookup insert text_eq index_of swap_remove
indexed_dns = refl
