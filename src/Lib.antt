-- ===== src/Lib.antt =====
-- A model of the core of ReAPI, the AMX Mod X module that gives plugins access to the hook chains of
-- ReHLDS, ReGameDLL_CS and their companions, and proofs about it.
--
-- Parts, and the files that model them:
-- * Info (reapi/common/info.cpp): info strings "\key\value...". Info_ValueForKey is
--   `value_for_key`, Info_RemoveKey `remove_key`, Info_FindLargestKey `find_largest_key` and
--   Info_SetValueForStarKey `set_value_for_star_key`. A string is the list of its codes; a result
--   is a `Run`, and writing past a local array is the fault `overflow`.
-- * Hooks (reapi/src/amx_hook.h, hook_list.h, hook_list.cpp, hook_manager.cpp): the tables of API
--   functions with the forwards registered for them. CHookManager::addHandler is `add_handler`,
--   getAmxxHook `get_amxx_hook`, Clear `clear`.
-- * Chain (reapi/src/hook_callback.h): one call of a hooked function. _callVoidForward is
--   `run_void_forward` and _callForward `run_forward_value`; callVoidForward and callForward put the
--   context of the call around them. It runs the forwards that Hooks keeps.
-- * Natives (reapi/src/natives/natives_hookchains.cpp, with type_conversion.h and parts of
--   amxxmodule.cpp and reapi_utils.cpp): what a plugin does with Hooks, and with the context of Chain
--   while its callback runs.
-- * Entity (reapi/src/entity_callback_dispatcher.h and .cpp): the callbacks on entities and their
--   deferred removal. A dispatch, with all that its callback does, is a step of a relation.
-- * Messages (reapi/src/hook_message_manager.h and .cpp, and
--   reapi/src/natives/natives_hookmessage.cpp): the forwards on game messages. The natives for what
--   a message holds stand in Messages.Data, over the parameter `MessageApi` for the message of the
--   engine: SetMessageData is `set_message_data`, GetMessageData `get_message_data`, and so on.
-- * Callbacks (reapi/src/hook_callback.cpp, with the type functions of hook_list.cpp and
--   hook_callback.h and the conversions of type_conversion.h): the function that stands in a hook
--   chain for each API function. Each is a value with the C++ function's name that says how its
--   arguments are passed to Chain and how `original` turns them back; `all_callbacks` are those of
--   the tables of Hooks.
-- * Members (reapi/src/member_list.h, member_list.cpp, natives/natives_members.cpp): the members of
--   the game's objects that plugins read and write. memberlist[...] is `member_at`; set_member and
--   get_member on an object are `set_member` and `get_member`, over the bytes of its memory, and the
--   natives of that name `set_member_native` and `get_member_native`; set_ucmd and set_pmtrace are
--   both `set_handle`. Cells and addresses are numbers of 32 bits that wrap around.
-- * Queries (reapi/src/mods/queryfile_handler.cpp, natives/natives_rechecker.cpp): the requests for
--   hashes of files. CQueryFileManager::Add is `add`, Remove `remove`, Clear `clear` and FireCallback
--   `fire_callback`.
-- * Misc (reapi/src/natives/natives_misc.cpp, with parts of natives_helper.h, reapi_utils.h and .cpp,
--   and ForEachItem of player.h): the natives on players, their items, the round, the teams and the
--   engine. A native is a definition of its own name: a program of calls, reads and writes outside of
--   the module, each of which continues with what is answered. Misc holds the checks they share (the
--   macros CHECK_...) and the calls through CSPlayer(), Misc.Calls what they call, and Misc.Players to
--   Misc.Engine the natives by what they are for. The loops over the items of a player take `n`
--   rounds for each slot.
-- * Prelude holds Boolean tests, lists measured by native numbers, signed integers, faults, and
--   the programs of calls (Prelude.Programs). The module Examples of a part applies its theorems to
--   concrete data.
--
-- AMXX, the engine and the game library are outside of the program: Chain and Messages take them as
-- the parameter `World` or `MessageWorld`, over a state of any type, Members as
-- `Game` and `Objects`, Misc a function that answers each call over a state of any type, and Entity
-- takes what AMXX returns for a registration. A vector of forwards that is iterated over is the one at
-- the start of the loop. Handles are taken to fit 32 bits. Addresses of callbacks are never used again.
--
-- Loops over strings run on fuel, one round for each character and one more: to run out of it is
-- the fault `fuel`. The loops over forwards are structural. The loops over linked items end in
-- `out_of_rounds` after `n` items of a slot, and the list of items must be that short.
--
-- Not modelled: the natives of natives_common.cpp, natives_reunion.cpp and natives_vtc.cpp, which
-- mostly hand their arguments to other libraries; the functions of hook_callback.cpp that run no hook
-- chain; the layout of the game's classes, which gives the offsets of members; the functions of
-- reapi_utils.cpp on model files; start-up code; the text of log messages; the buffers that the
-- strings and vectors of SetHookChainReturn take turns in.
pub mod Prelude
pub mod Info
pub mod Hooks
pub mod Chain
pub mod Entity
pub mod Messages
pub mod Natives
pub mod Callbacks
pub mod Members
pub mod Queries
pub mod Misc
