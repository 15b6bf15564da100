-- ===== src/Server/Answers.antt =====
-- From the texts on the disk of a first start to the words that a client prints.
use kwd_server.Cache.{Cache}
use kwd_server.EventLoop.{EventLoop}
use kwd_server.Server.Build.{Built}
