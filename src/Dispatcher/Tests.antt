-- ===== src/Dispatcher/Tests.antt =====
-- Two types, the numbers 1 and 2; the first has two callbacks, one after the other.
use muduo_net_zxl.Prelude.{ℕ, ◌≡◌, refl, some, List, [], ◌∷◌, nat_eq}
use muduo_net_zxl.Dispatcher.{
  callback, default_callback, new_dispatcher, on_protobuf_message, new_lite, on_message_lite,
  register_all, register_all_lite,
}
use muduo_net_zxl.Dispatcher.Same.{last_registered, on_protobuf_message-on_message_lite}

abbrev registrations : List (ℕ × ℕ)
registrations = (1, 10) ∷ (2, 20) ∷ (1, 11) ∷ []

on_protobuf_message-on_message_lite_example :
    (on_protobuf_message (register_all new_dispatcher registrations) 1
      ≡ some (on_message_lite (register_all_lite new_lite registrations) 1))
    × (on_message_lite (register_all_lite new_lite registrations) 1
        ≡ last_registered default_callback registrations 1)
on_protobuf_message-on_message_lite_example = on_protobuf_message-on_message_lite registrations 1

last_test : last_registered default_callback registrations 1 ≡ callback 11
unfolding last_registered
last_test = refl
