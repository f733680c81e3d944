-- ===== src/Sync/EventGroup.antt =====
-- `EventGroup` of src/sync/eventgroup.rs: a FreeRTOS event group that has to be made before it is
-- used. The flags of `T` are their bits, and `none` is the panic of `handle`, or a wait that goes
-- on.
use bark_esp.Base.{Option, none, some, Bool, true, false, Result, ok, err}
use bark_esp.Extern.EventGroup.{Bits, EventGroup}

module _ (G : EventGroup) where
  -- `Inner`, its `handle` with the group that it names
  pub record Group : Type 0 where
    pub handle : Option G.Carrier

  abbrev pub declare : Group
  declare = record { handle = none }

  unfoldable pub init_with : Bits → Group → Group
  init_with value g = record { handle = some (G.set_bits value G.create) }

  -- `boxed`, for the result of the allocation
  unfoldable pub boxed : {E : Type 0} → (Group → Result Group E) → Bits → Result Group E
  boxed alloc value = elim (alloc declare) [ ok g ↦ ok (init_with value g) | err e ↦ err e ]

  -- `xEventGroupSetBits` returns the bits at the time it returns.
  abbrev pub set_handle : Bits → Option G.Carrier → Option (Bits × Group)
  set_handle flags none = none
  set_handle flags (some h) =
      some (G.bits (G.set_bits flags h), record { handle = some (G.set_bits flags h) })

  unfoldable pub set : Bits → Group → Option (Bits × Group)
  set flags g = set_handle flags g.handle

  -- `xEventGroupClearBits` returns the bits before it cleared any.
  abbrev pub clear_handle : Bits → Option G.Carrier → Option (Bits × Group)
  clear_handle flags none = none
  clear_handle flags (some h) = some (G.bits h, record { handle = some (G.clear_bits flags h) })

  unfoldable pub clear : Bits → Group → Option (Bits × Group)
  clear flags g = clear_handle flags g.handle

  abbrev pub after_wait : Option (Bits × G.Carrier) → Option (Bits × Group)
  after_wait none = none
  after_wait (some (b, h)) = some (b, record { handle = some h })

  abbrev pub wait_handle : Bits → Bool → Bool → Option G.Carrier → Option (Bits × Group)
  wait_handle flags clears all none = none
  wait_handle flags clears all (some h) = after_wait (G.wait_bits flags clears all h)

  -- `xEventGroupSync` sets the bits and waits in one step; the result if the wait ends at once, and
  -- the group while it goes on.
  abbrev pub sync_handle : Bits → Bits → Option G.Carrier → Option (Option (Bits × Group) × Group)
  sync_handle set wait none = none
  sync_handle set wait (some h) =
      let h' = G.set_bits set h in
      some (after_wait (G.wait_bits wait true true h'), record { handle = some h' })

  unfoldable pub set_and_then_wait_for :
      Bits → Bits → Group → Option (Option (Bits × Group) × Group)
  set_and_then_wait_for set wait g = sync_handle set wait g.handle

  unfoldable pub wait_all : Bits → Group → Option (Bits × Group)
  wait_all flags g = wait_handle flags false true g.handle

  unfoldable pub wait_for_any_and_clear : Bits → Group → Option (Bits × Group)
  wait_for_any_and_clear flags g = wait_handle flags true false g.handle
