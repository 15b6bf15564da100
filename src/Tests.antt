-- ===== src/Tests.antt =====
-- Runs of the model at concrete inputs, and each theorem at an input that meets its hypotheses.
mod Search
mod Cache
mod Reference
mod TaskQue
mod SocketIo
mod Worker
mod DictCreator
mod EventLoop
mod Files
mod CacheFile
mod Timer
mod Server
mod Startup
mod Pool
mod Net
mod Wakes
mod Sync
mod AnswerDoc
mod AnswerLaws
mod Build
mod Request
mod Session
mod Race
mod Restarted
