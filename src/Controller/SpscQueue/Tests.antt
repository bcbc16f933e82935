-- ===== src/Controller/SpscQueue/Tests.antt =====
-- A ring of four places whose indices have gone round.
use adaptive_traffic_light.Prelude.{ℕ, ◌-◌, ◌≡◌, refl, true, false, some, List, [], ◌∷◌, arith}
use adaptive_traffic_light.Controller.SpscQueue.{SpscQueue, capacity, try_push, try_pop}
use adaptive_traffic_light.Controller.SpscQueue.Fifo.{
  IsValid, contents, Call, pushes, pops, pushed, popped, on_ring, on_list, on_ring-on_list,
}

abbrev two_values : SpscQueue ℕ
two_values = record { storage = 8 ∷ 0 ∷ 0 ∷ 7 ∷ []; write_index = 1; read_index = 3 }

two_values-IsValid : IsValid 0 two_values
two_values-IsValid = record { read = omega arith; write = omega arith }

oldest_first : contents 0 two_values ≡ 7 ∷ 8 ∷ []
oldest_first = refl

third :
    try_push 9 two_values
    ≡ (true, record two_values { storage = 8 ∷ 9 ∷ 0 ∷ 7 ∷ []; write_index = 2 })
unfolding try_push
third = refl

abbrev four_calls : List (Call {T = ℕ} 0)
four_calls = pushes 9 ∷ pushes 5 ∷ pops ∷ pops ∷ []

second_is_refused :
    on_ring 0 four_calls two_values
    ≡ pushed true ∷ pushed false ∷ popped (some 7) ∷ popped (some 8) ∷ []
unfolding try_push try_pop
second_is_refused = refl

on_ring-on_list_example :
    on_ring 0 four_calls two_values
    ≡ on_list 0 (capacity two_values - 1) four_calls (contents 0 two_values)
on_ring-on_list_example = on_ring-on_list 0 four_calls two_values two_values-IsValid
