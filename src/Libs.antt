-- ===== src/Libs.antt =====
-- The libraries in JavaScript on top of the native functions (libs/).
pub mod Buffer
pub mod Inotify
pub mod Tcp
pub mod Http
pub mod Module
