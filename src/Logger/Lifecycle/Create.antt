-- ===== src/Logger/Lifecycle/Create.antt =====
-- The error paths of `malc_create` of src/malc/malc.c.
use mini_async_log_c.Common.{
  ◌≡◌, ◌≢◌, refl, Bool, true, false, ◌||◌, Option, none, some, List, [], ◌∷◌, ok, BlErr,
}
use mini_async_log_c.Logger.Lifecycle.{
  Part, time_extras, produce_mutex, memory, deserializer, parser, destinations, malc_create,
}

abbrev pub is_part : Part → Part → Bool
is_part time_extras time_extras = true
is_part produce_mutex produce_mutex = true
is_part memory memory = true
is_part deserializer deserializer = true
is_part parser parser = true
is_part destinations destinations = true
is_part _ _ = false

abbrev pub has : Part → List Part → Bool
has p [] = false
has p (x ∷ xs) = is_part p x || has p xs

-- The parts that are there before the step that fails, by the errors of the steps from that of the memory
-- on.
abbrev pub made : Option BlErr → Option BlErr → Option BlErr → List Part
made (some e) ds ep = time_extras ∷ produce_mutex ∷ []
made none (some e) ep = time_extras ∷ produce_mutex ∷ memory ∷ []
made none none (some e) = time_extras ∷ produce_mutex ∷ memory ∷ deserializer ∷ []
made none none none = time_extras ∷ produce_mutex ∷ memory ∷ deserializer ∷ parser ∷ []

-- No part is destroyed that was not made, and the mutex is.
abbrev pub IsClean : List Part → List Part → Type 0
IsClean made destroyed =
    ((p : Part) → has p destroyed ≡ true → has p made ≡ true) × (has produce_mutex destroyed ≡ true)

-- Where there is an allocator and the time and the mutex are initialized, none of the errors of
-- the memory, the deserializer and the parser is cleaned up: either the mutex stays, or the
-- deserializer is destroyed that was not made.
pub malc_create-IsClean :
    (mem ds ep : Option BlErr)
    → (malc_create true none none mem ds ep).0 ≢ ok tt
    → ¬ IsClean (made mem ds ep) (malc_create true none none mem ds ep).1
unfolding malc_create
malc_create-IsClean (some e) ds ep bad c = cc (c.0 deserializer refl)
malc_create-IsClean none (some e) ep bad c = cc (c.1)
malc_create-IsClean none none (some e) bad c = cc (c.1)
malc_create-IsClean none none none bad c = absurd (bad refl)
