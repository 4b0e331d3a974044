-- ===== src/Lib.antt =====
-- No.js: a JavaScript runtime on V8 and io_uring. The library models its native code, core/, and the
-- JavaScript libraries on top of it, libs/.
--
-- A native function allocates a request, fills it and submits it to the kernel (`SubmitRequest`); the
-- loop (`RunIOUring`) takes what is complete and calls the request's callback, which calls a
-- JavaScript function and releases the request or submits it again. `pending` counts what is
-- outstanding, and the loop ends when it is 0. Signals and timers enter the loop by requests that do
-- nothing. The HTTP parser, the loader and the compiler of scripts stand beside the loop.
--
-- Base: shared tests on numbers, lists, dictionaries, byte strings, integers, and results with the
--   faults of C++ (a freed pointer, a wrong cast, a read out of range) as values.
-- Env: core/env.h, core/env.cc, core/io_uring.h, core/string.h. The state of the process is one
--   record, with the static tables of the modules; the heap is a dictionary from addresses to requests.
-- Uring: `SubmitRequest`, `incPending`, `decPending` and `Stop` of core/io_uring.cc; Uring.Launch is
--   an allocation with a submission, Uring.Ownership the invariant on who owns a request.
-- Async: core/async.h, the two templates `makeCallback`.
-- Args: the arguments of a native function and their casts.
-- Io, Net, Fs, Timer, Signal, Inotify: the native functions and callbacks of core/io.cc; core/net.cc,
--   core/udp.cc and core/ipc/unix_domain.cc; core/fs.cc; core/timer.cc; core/signal.cc;
--   core/inotify.cc. Signal.Handlers is what the kernel does with a signal. A native function has the name of the C++ function, in small letters.
-- Loop: `RunIOUring`. Loop.Calls says what a JavaScript function can do; Loop.CallOwnership,
--   Loop.Safety, Loop.Counting, Loop.Pending and Loop.Run hold the invariants of the loop;
--   Loop.Delivery, Loop.Connections, Loop.Timers and Loop.Listeners follow single requests;
--   Loop.Watching follows a read of file events to the next, and Loop.Releasing to the read of its
--   freed request; Loop.Work, Loop.Quiet and Loop.Ending a
--   program to its end, Loop.Serving a server that does not end; Loop.Abstract is the abstract
--   machine of the requests in flight, and Loop.Refinement relates the loop to it; Loop.Defects
--   shows where the count goes wrong.
-- Http: core/HTTP_Parser.h, core/HTTP_Parser.cc, core/http.h, core/http.cc. Http.Delivery follows a
--   message from the bytes of an array to the functions of JavaScript.
-- Script: core/loader.cc and core/vm.cc. Process: core/process.cc.
-- Builtins: core/core.cc with the `Init` functions: the native functions by the names that a program
--   calls them by, and that they do nothing to the state but what Loop.Calls lists. How the
--   functions end that read or run code, print, or ask the system is an argument there (Answers).
--   Builtins.Constants has the tables of constants.
-- Util: core/util.cc, core/util.h and core/console.cc. Entry: No.cc, `main`.
-- Libs: the JavaScript libraries, on top of the native functions: libs/buffer, libs/inotify, libs/tcp,
--   libs/http and libs/module. Libs.Buffer has the bytes of strings, Libs.Inotify the callbacks of
--   watched files, Libs.Tcp the sockets of a server, Libs.Http a request and its response,
--   Libs.Module `require`.
-- Tests: the theorems at small states.
--
-- Parameters. V8, llhttp, liburing and the package in libs/events are not part of the repository's
-- own code. A JavaScript function is a number, and the parameter `js` says what a call of it does to
-- the process; the theorems on the loop take as a hypothesis that it does nothing but call native
-- functions, in any number, between which handlers of signals and timers may run (Loop.Calls). What
-- system calls answer, the bytes and events that are read, and the order in which the kernel
-- completes entries and signals arrive (a schedule) are arguments. A signal arrives between two
-- callbacks or between two native calls of a JavaScript function, never within native code.
-- `pending` is the bit pattern of an `int32_t` and wraps around at 2^32; the theorems that read it
-- as a number say so. The loop recurses on its schedule, and ends as `waiting` where the schedule
-- ends. The loop over the listeners of a watch recurses on fuel, `Machine.fuel`; listeners that a
-- callback adds may be called in the same pass, so no bound holds for every program. The invariants
-- hold for any fuel; where no listener is added or removed, more rounds than a watch has listeners
-- are enough. `Module.load` recurses on the number of nested calls; without cycles, more than the
-- rank of the file are enough. In the JavaScript libraries, strings are lists of code points, and
-- file names, callbacks and exported values are numbers.
--
-- Not modelled: the start and the end of V8 in No.cc; the helpers around V8 strings and objects
-- (core/util.h, core/baseObject.cc); `HTTP_Parser::print`, which only prints; core/event.cc, which
-- holds comments only; No.js, libs/console and libs/process, which pass values on; the lists of
-- listeners of libs/events: what listeners do is a parameter, or what is emitted is a value.
pub mod Base
pub mod Env
pub mod Uring
pub mod Async
pub mod Timer
pub mod Args
pub mod Io
pub mod Net
pub mod Fs
pub mod Signal
pub mod Inotify
pub mod Loop
pub mod Http
pub mod Script
pub mod Process
pub mod Builtins
pub mod Util
pub mod Entry
pub mod Libs
pub mod Tests
