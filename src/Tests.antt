-- ===== src/Tests.antt =====
-- Runs of the models on concrete inputs, and each theorem that has hypotheses at one.
mod Ring
mod Queue
mod Stats
mod Task
mod Spawn
mod Execute
mod Mutex
mod Locked
mod Critical
mod Channel
mod Dac
mod Stream
mod System
mod Protocol
mod Dispatch
mod Platform
mod Wifi
mod Bind
mod Play
mod Timing
