-- ===== src/Dispatcher.antt =====
-- protobuf/dispatcher.h and protobuf/dispatcher_lite.h: a message goes to the callback that was registered
-- for its type, or to a default one. A type is its descriptor, a callback is a number, and a message is
-- given by its type. A failed `assert` is `none`.
pub mod Same
mod Tests
use muduo_net_zxl.Prelude.{
  ℕ, Bool, Option, none, some, List, [], ◌∷◌, ◌>>=◌, assert, Eq, lookup, insert,
}

-- What is called with the message.
pub data Called : Type 0 where
  callback : ℕ → Called
  default_callback : Called

-- `CallbackT<T>`, with the descriptor of `T`.
pub record CallbackT (Descriptor : Type 0) : Type 0 where
  pub type_ : Descriptor
  pub callback_ : ℕ

pub record ProtobufDispatcher (Descriptor : Type 0) : Type 0 where
  pub callbacks : List (Descriptor × CallbackT Descriptor)

pub record ProtobufDispatcherLite (Descriptor : Type 0) : Type 0 where
  pub callbacks : List (Descriptor × ℕ)

abbrev pub found_lite : Option ℕ → Called
found_lite none = default_callback
found_lite (some cb) = callback cb

module _ {Descriptor : Type 0} ⦃e : Eq Descriptor⦄ where
  -- `down_pointer_cast<T>` gives NULL for a message of another type.
  unfoldable pub on_message : CallbackT Descriptor → Descriptor → Option Called
  on_message c message = do _ ← assert (e.beq message c.type_); some (callback c.callback_)

  unfoldable pub new_dispatcher : ProtobufDispatcher Descriptor
  new_dispatcher = record { callbacks = [] }

  -- `registerMessageCallback<T>`.
  unfoldable pub register_message_callback :
      ProtobufDispatcher Descriptor → Descriptor → ℕ → ProtobufDispatcher Descriptor
  register_message_callback d t cb =
      let pd : CallbackT Descriptor = record { type_ = t; callback_ = cb } in
      record { callbacks = insert t pd d.callbacks }

  -- Behind `callbacks_.find`.
  abbrev pub found : Option (CallbackT Descriptor) → Descriptor → Option Called
  found none message = some default_callback
  found (some c) message = on_message c message

  unfoldable pub on_protobuf_message : ProtobufDispatcher Descriptor → Descriptor → Option Called
  on_protobuf_message d message = found (lookup message d.callbacks) message

  unfoldable pub new_lite : ProtobufDispatcherLite Descriptor
  new_lite = record { callbacks = [] }

  unfoldable pub register_lite :
      ProtobufDispatcherLite Descriptor → Descriptor → ℕ → ProtobufDispatcherLite Descriptor
  register_lite d desc cb = record { callbacks = insert desc cb d.callbacks }

  unfoldable pub on_message_lite : ProtobufDispatcherLite Descriptor → Descriptor → Called
  on_message_lite d message = found_lite (lookup message d.callbacks)

  -- Registrations, one after another.
  unfoldable pub register_all :
      ProtobufDispatcher Descriptor → List (Descriptor × ℕ) → ProtobufDispatcher Descriptor
  register_all d [] = d
  register_all d ((t, cb) ∷ rs) = register_all (register_message_callback d t cb) rs

  unfoldable pub register_all_lite :
      ProtobufDispatcherLite Descriptor → List (Descriptor × ℕ) → ProtobufDispatcherLite Descriptor
  register_all_lite d [] = d
  register_all_lite d ((t, cb) ∷ rs) = register_all_lite (register_lite d t cb) rs
