-- ===== src/App.antt =====
-- source/app: the script of the application, above the functions of exports.cpp. What protobuf.lua
-- answers, which is a copied library, and whether a host is resolved are parameters.
pub mod Dispatcher
pub mod Handlers
pub mod Connector
