-- ===== src/Dispatcher/Same.antt =====
-- Both dispatchers against what their users mean by a registration.
use muduo_net_zxl.Prelude.{
  ℕ, ◌≡◌, refl, sym, ap, ◌∙◌, true, Option, some, List, [], ◌∷◌, Eq, lookup, lookup-insert_same,
  lookup-insert_other, if◌then◌else◌, arith, Bool-cases, inl, inr,
}
use muduo_net_zxl.Dispatcher.{
  Called, callback, default_callback, CallbackT, found, found_lite, on_message, ProtobufDispatcher,
  new_dispatcher, register_message_callback, on_protobuf_message, ProtobufDispatcherLite, new_lite,
  register_lite, on_message_lite, register_all, register_all_lite,
}

module _ {Descriptor : Type 0} ⦃e : Eq Descriptor⦄ where
  -- The callback that was registered last for a type, if any was; `before` is what held before.
  unfoldable pub last_registered : Called → List (Descriptor × ℕ) → Descriptor → Called
  last_registered before [] message = before
  last_registered before ((t, cb) ∷ rs) message =
      last_registered (if e.beq t message then callback cb else before) rs message

  -- One registration, for any message.
  register-on_protobuf_message :
      (d : ProtobufDispatcher Descriptor) (t : Descriptor) (cb : ℕ) (message : Descriptor)
      → on_protobuf_message (register_message_callback d t cb) message
        ≡ (if e.beq t message then some (callback cb) else on_protobuf_message d message)
  unfolding register_message_callback on_protobuf_message on_message
  register-on_protobuf_message d t cb message =
      let k : CallbackT Descriptor = record { type_ = t; callback_ = cb } in
      elim (Bool-cases (e.beq t message)) [
        | inl h ↦
            let same : message ≡ t = sym ((e.beq_iff t message).0 h) in
            let b : e.beq message t ≡ true = (e.beq_iff message t).1 same in
            rw h (
              ap (λ (o : Option (CallbackT Descriptor)). found o message)
                (lookup-insert_same t message k d.callbacks h)
              ∙ rw b refl)
        | inr h ↦ rw h (
            ap (λ (o : Option (CallbackT Descriptor)). found o message)
              (lookup-insert_other t message k d.callbacks h))
      ]

  register_lite-on_message_lite :
      (d : ProtobufDispatcherLite Descriptor) (t : Descriptor) (cb : ℕ) (message : Descriptor)
      → on_message_lite (register_lite d t cb) message
        ≡ (if e.beq t message then callback cb else on_message_lite d message)
  unfolding register_lite on_message_lite
  register_lite-on_message_lite d t cb message = elim (Bool-cases (e.beq t message)) [
    | inl h ↦ rw h (ap found_lite (lookup-insert_same t message cb d.callbacks h))
    | inr h ↦ rw h (ap found_lite (lookup-insert_other t message cb d.callbacks h))
  ]

  all_lem :
      (d : ProtobufDispatcher Descriptor) (before : Called) (rs : List (Descriptor × ℕ))
      (message : Descriptor)
      → on_protobuf_message d message ≡ some before
      → on_protobuf_message (register_all d rs) message ≡ some (last_registered before rs message)
  unfolding register_all last_registered
  all_lem d before [] message h = h
  all_lem d before ((t, cb) ∷ rs) message h =
      all_lem (register_message_callback d t cb) (if e.beq t message then callback cb else before)
        rs message (register-on_protobuf_message d t cb message ∙ ground (arith, h))

  all_lite_lem :
      (d : ProtobufDispatcherLite Descriptor) (before : Called) (rs : List (Descriptor × ℕ))
      (message : Descriptor)
      → on_message_lite d message ≡ before
      → on_message_lite (register_all_lite d rs) message ≡ last_registered before rs message
  unfolding register_all_lite last_registered
  all_lite_lem d before [] message h = h
  all_lite_lem d before ((t, cb) ∷ rs) message h =
      all_lite_lem (register_lite d t cb) (if e.beq t message then callback cb else before) rs
        message (register_lite-on_message_lite d t cb message ∙ ground (arith, h))

  -- Given the same registrations, in the same order, both dispatchers call the same: the callback that was
  -- registered last for the type of the message, or the default one if none was. The cast of the typed
  -- dispatcher never fails.
  pub on_protobuf_message-on_message_lite :
      (rs : List (Descriptor × ℕ)) (message : Descriptor)
      → (on_protobuf_message (register_all new_dispatcher rs) message
          ≡ some (on_message_lite (register_all_lite new_lite rs) message))
        × (on_message_lite (register_all_lite new_lite rs) message
            ≡ last_registered default_callback rs message)
  unfolding new_dispatcher new_lite on_protobuf_message on_message_lite lookup
  on_protobuf_message-on_message_lite rs message =
      let p = all_lem new_dispatcher default_callback rs message refl in
      let q = all_lite_lem new_lite default_callback rs message refl in (p ∙ ap some (sym q), q)
